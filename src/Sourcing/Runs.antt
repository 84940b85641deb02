-- ===== src/Sourcing/Runs.antt =====
-- Requests to the RFQ, bid and evaluation services by any callers, under a clock.
use enterprise_ai_procuremen.Prelude.{ℕ, ◌≤◌, List, [], ◌∷◌}
use enterprise_ai_procuremen.Relations.{Chain, here, next}
use enterprise_ai_procuremen.Database.{Surroundings, Caller}
use enterprise_ai_procuremen.Sourcing.Schema.{BidAttachment, Sourcing}
use enterprise_ai_procuremen.Sourcing.Process.{Step}
use enterprise_ai_procuremen.Sourcing.Soundness.{IsSound}
use enterprise_ai_procuremen.Sourcing.RfqSteps.{later-IsSound}
use enterprise_ai_procuremen.Sourcing.Invariant.{Step-IsSound}
use enterprise_ai_procuremen.Rfqs.Service as Rfqs
use enterprise_ai_procuremen.Rfqs.Writes as RfqWrites
use enterprise_ai_procuremen.Bids.Service as Bids
use enterprise_ai_procuremen.Bids.Writes as BidWrites
use enterprise_ai_procuremen.Bids.Items as BidItems
use enterprise_ai_procuremen.Evaluations.Service.{
  CreateEvaluationDto, UpdateEvaluationDto, AwardBidDto, create_evaluation, update_evaluation,
  award_bid,
}
use enterprise_ai_procuremen.Evaluations.Writes.{
  create_evaluation-Steps, update_evaluation-Steps, award_bid-Steps,
}

-- the endpoints of the three controllers that write
pub data Request : Type 0 where
  creates_rfq : Rfqs.CreateRfqDto → Request
  updates_rfq : ℕ → Rfqs.UpdateRfqDto → Request
  deletes_rfq publishes_rfq closes_rfq cancels_rfq : ℕ → Request
  invites_vendor : ℕ → ℕ → Request
  creates_bid : Bids.CreateBidDto → Request
  updates_bid : ℕ → Bids.UpdateBidDto → Request
  deletes_bid submits_bid withdraws_bid : ℕ → Request
  adds_item : ℕ → Bids.CreateBidItemDto → Request
  removes_item : ℕ → Request
  adds_attachment : ℕ → BidAttachment → Request
  creates_evaluation : CreateEvaluationDto → Request
  updates_evaluation : ℕ → UpdateEvaluationDto → Request
  awards_bid : AwardBidDto → Request

-- the tables after a request, whether it succeeds or not
unfoldable pub perform : Surroundings → Caller → Request → Sourcing → Sourcing
perform env c (creates_rfq dto) s = (Rfqs.create env c.organisation_id c.user_id dto s).1
perform env c (updates_rfq id dto) s = (Rfqs.update env c.organisation_id id dto s).1
perform env c (deletes_rfq id) s = (Rfqs.delete_draft c.organisation_id id s).1
perform env c (publishes_rfq id) s = (Rfqs.publish c.organisation_id id s).1
perform env c (closes_rfq id) s = (Rfqs.close c.organisation_id id s).1
perform env c (cancels_rfq id) s = (Rfqs.cancel c.organisation_id id s).1
perform env c (invites_vendor id vendor) s = (Rfqs.invite_vendor env c id vendor s).1
perform env c (creates_bid dto) s = (Bids.create env c dto s).1
perform env c (updates_bid id dto) s = (Bids.update c id dto s).1
perform env c (deletes_bid id) s = (Bids.delete_draft c id s).1
perform env c (submits_bid id) s = (Bids.submit env c id s).1
perform env c (withdraws_bid id) s = (Bids.withdraw env c id s).1
perform env c (adds_item id dto) s = (Bids.add_item env c id dto s).1
perform env c (removes_item item) s = (Bids.remove_item c item s).1
perform env c (adds_attachment id a) s = (Bids.add_attachment c id a s).1
perform env c (creates_evaluation dto) s =
    (create_evaluation env c.organisation_id c.user_id dto s).1
perform env c (updates_evaluation id dto) s = (update_evaluation c.organisation_id id dto s).1
perform env c (awards_bid dto) s = (award_bid env c.organisation_id c.user_id dto s).1

-- Every request is made of steps of the sourcing process at its time.
pub perform-Steps :
    (env : Surroundings) (c : Caller) (r : Request) (s : Sourcing)
    → Chain (Step env.now) s (perform env c r s)
unfolding perform
perform-Steps env c (creates_rfq dto) s =
    RfqWrites.create-Steps env c.organisation_id c.user_id dto s
perform-Steps env c (updates_rfq id dto) s = RfqWrites.update-Steps env c.organisation_id id s dto
perform-Steps env c (deletes_rfq id) s = RfqWrites.delete_draft-Steps env c.organisation_id id s
perform-Steps env c (publishes_rfq id) s = RfqWrites.publish-Steps env c.organisation_id id s
perform-Steps env c (closes_rfq id) s = RfqWrites.close-Steps env c.organisation_id id s
perform-Steps env c (cancels_rfq id) s = RfqWrites.cancel-Steps env c.organisation_id id s
perform-Steps env c (invites_vendor id vendor) s = RfqWrites.invite_vendor-Steps env c id vendor s
perform-Steps env c (creates_bid dto) s = BidWrites.create-Steps env c dto s
perform-Steps env c (updates_bid id dto) s = BidItems.update-Steps env c id s dto
perform-Steps env c (deletes_bid id) s = BidItems.delete_draft-Steps env c id s
perform-Steps env c (submits_bid id) s = BidItems.submit-Steps env c id s
perform-Steps env c (withdraws_bid id) s = BidItems.withdraw-Steps env c id s
perform-Steps env c (adds_item id dto) s = BidItems.add_item-Steps env c id s dto
perform-Steps env c (removes_item item) s = BidItems.remove_item-Steps env c item s
perform-Steps env c (adds_attachment id a) s = BidItems.add_attachment-Steps env c id s a
perform-Steps env c (creates_evaluation dto) s =
    create_evaluation-Steps env c.organisation_id c.user_id dto s
perform-Steps env c (updates_evaluation id dto) s =
    update_evaluation-Steps env c.organisation_id id dto s
perform-Steps env c (awards_bid dto) s = award_bid-Steps env c.organisation_id c.user_id dto s

abbrev pub Call : Type 0
Call = Surroundings × Caller × Request

unfoldable pub run : List Call → Sourcing → Sourcing
run [] s = s
run ((env, c, r) ∷ calls) s = run calls (perform env c r s)

-- The clock does not run backwards, from `now` on.
abbrev pub IsTimely : ℕ → List Call → Type 0
IsTimely now [] = Unit
IsTimely now ((env, _, _) ∷ calls) = (now ≤ env.now) × IsTimely env.now calls

-- the time of the last call
unfoldable pub clock_after : ℕ → List Call → ℕ
clock_after now [] = now
clock_after now ((env, _, _) ∷ calls) = clock_after env.now calls

Chain-IsSound : {now : ℕ} {s t : Sourcing} → Chain (Step now) s t → IsSound now s → IsSound now t
Chain-IsSound here v = v
Chain-IsSound (next p q) v = Step-IsSound q (Chain-IsSound p v)

pub run-IsSound :
    (now : ℕ) (calls : List Call) (s : Sourcing)
    → IsTimely now calls
    → IsSound now s
    → IsSound (clock_after now calls) (run calls s)
unfolding run clock_after
run-IsSound now [] s h v = v
run-IsSound now ((env, c, r) ∷ calls) s (le, h) v =
    run-IsSound env.now calls (perform env c r s) h
      (Chain-IsSound (perform-Steps env c r s) (later-IsSound le v))
