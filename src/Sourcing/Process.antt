-- ===== src/Sourcing/Process.antt =====
-- The sourcing process as a step relation on the tables, under a clock that does not run backwards.
use enterprise_ai_procuremen.Prelude.{
  ℕ, ◌≡◌, ◌≢◌, ◌⊎◌, ◌≤◌, ◌<◌, Bool, true, false, not, none, some, List, [], ◌∷◌, ◌++◌, String,
  is_empty, ◌==◌,
}
use enterprise_ai_procuremen.Store.{Table, lookup, insert, erase, keep_rows, any_row}
use enterprise_ai_procuremen.Schema.{BidStatus}
use enterprise_ai_procuremen.Approvals.Schema.{ProcurementRequest, ProcurementStatus}
use enterprise_ai_procuremen.Sourcing.Schema.{
  Rfq, RfqStatus, Bid, BidEvaluation, EvaluationCriteria, Award, Sourcing,
}
use enterprise_ai_procuremen.Rfqs.Repository.{is_invited, new_invitation, answers_other}
use enterprise_ai_procuremen.Bids.Repository.{
  find_active_by_rfq_and_vendor, mark_responded, rounded_total,
}

abbrev pub with_rfq : ℕ → Rfq → Sourcing → Sourcing
with_rfq id q s = record s { rfqs = insert id q s.rfqs }

abbrev pub without_rfq : ℕ → Sourcing → Sourcing
without_rfq id s = record s {
  rfqs = erase id s.rfqs;
  bids = keep_rows (λ b. not (b.rfq_id == id)) s.bids;
  evaluations = keep_rows (λ v. answers_other id s.bids v.bid_id) s.evaluations;
  awards = keep_rows (λ a. answers_other id s.bids a.bid_id) s.awards;
}

abbrev pub with_bid : ℕ → Bid → Sourcing → Sourcing
with_bid id b s = record s { bids = insert id b s.bids }

abbrev pub without_bid : ℕ → Sourcing → Sourcing
without_bid id s = record s {
  bids = erase id s.bids;
  evaluations = keep_rows (λ v. not (v.bid_id == id)) s.evaluations;
  awards = keep_rows (λ a. not (a.bid_id == id)) s.awards;
}

abbrev pub with_award : ℕ → Award → Bid → Sourcing → Sourcing
with_award id a b s = record s {
  awards = insert id a s.awards;
  bids = insert a.bid_id (record b { status = BidStatus.awarded }) s.bids;
}

abbrev pub is_evaluated : ℕ → Table BidEvaluation → Bool
is_evaluated bid t = any_row (λ v. v.bid_id == bid) t

-- A request for quotation that may still change.
abbrev pub IsOpen : Rfq → Type 0
IsOpen q = (q.status ≡ RfqStatus.draft) ⊎ (q.status ≡ RfqStatus.published)

-- What may happen to a request for quotation at the time `now`.
pub data RfqMove (now : ℕ) : Rfq → Rfq → Type 0 where
  edits :
      (q : Rfq) (title description : String) (date : ℕ)
      → IsOpen q
      → (date ≡ q.closing_date) ⊎ (now < date)
      → RfqMove now q (record q { title = title; description = description; closing_date = date })
  invites :
      (q : Rfq) (vendor : ℕ)
      → q.status ≡ RfqStatus.draft
      → is_invited vendor q ≡ false
      → RfqMove now q (record q { vendors = q.vendors ++ (new_invitation vendor now ∷ []) })
  publishes :
      (q : Rfq)
      → q.status ≡ RfqStatus.draft
      → is_empty q.vendors ≡ false
      → RfqMove now q (record q { status = RfqStatus.published })
  closes :
      (q : Rfq)
      → q.status ≡ RfqStatus.published
      → RfqMove now q (record q { status = RfqStatus.closed })
  cancels : (q : Rfq) → IsOpen q → RfqMove now q (record q { status = RfqStatus.cancelled })

-- The stored total is the sum of the lines, rounded.
abbrev pub HasTotal : Bid → Type 0
HasTotal b = b.total_amount ≡ rounded_total b.items

-- A change of a draft bid that leaves it the same vendor's draft for the same request, with its total.
abbrev pub KeepsDraft : Bid → Bid → Type 0
KeepsDraft b b' =
    (b.status ≡ BidStatus.draft)
    × (b'.status ≡ BidStatus.draft)
    × (b'.rfq_id ≡ b.rfq_id)
    × (b'.vendor_id ≡ b.vendor_id)
    × (HasTotal b → HasTotal b')

pub data Step (now : ℕ) : Sourcing → Sourcing → Type 0 where
  opens :
      (s : Sourcing) (id : ℕ) (q : Rfq) (r : ProcurementRequest)
      → lookup id s.rfqs ≡ none
      → lookup q.procurement_request_id s.approvals.requests ≡ some r
      → r.status ≡ ProcurementStatus.approved
      → q.status ≡ RfqStatus.draft
      → now < q.closing_date
      → Step now s (with_rfq id q s)
  moves_rfq :
      (s : Sourcing) (id : ℕ) (q q' : Rfq)
      → lookup id s.rfqs ≡ some q
      → RfqMove now q q'
      → Step now s (with_rfq id q' s)
  removes_rfq :
      (s : Sourcing) (id : ℕ) (q : Rfq)
      → lookup id s.rfqs ≡ some q
      → q.status ≡ RfqStatus.draft
      → Step now s (without_rfq id s)
  bids :
      (s : Sourcing) (id : ℕ) (b : Bid) (q : Rfq)
      → lookup id s.bids ≡ none
      → lookup b.rfq_id s.rfqs ≡ some q
      → q.status ≡ RfqStatus.published
      → now ≤ q.closing_date
      → is_invited b.vendor_id q ≡ true
      → find_active_by_rfq_and_vendor b.rfq_id b.vendor_id s ≡ false
      → b.status ≡ BidStatus.draft
      → HasTotal b
      → Step now s (with_bid id b s)
  edits_bid :
      (s : Sourcing) (id : ℕ) (b b' : Bid)
      → lookup id s.bids ≡ some b
      → KeepsDraft b b'
      → Step now s (with_bid id b' s)
  removes_bid :
      (s : Sourcing) (id : ℕ) (b : Bid)
      → lookup id s.bids ≡ some b
      → b.status ≡ BidStatus.draft
      → Step now s (without_bid id s)
  submits :
      (s : Sourcing) (id : ℕ) (b : Bid) (q : Rfq) (total : ℕ)
      → lookup id s.bids ≡ some b
      → b.status ≡ BidStatus.draft
      → lookup b.rfq_id s.rfqs ≡ some q
      → q.status ≡ RfqStatus.published
      → now ≤ q.closing_date
      → is_empty b.items ≡ false
      → total ≡ rounded_total b.items
      → Step now s (
          mark_responded b.rfq_id b.vendor_id now (
            with_bid id
              (record b {
                status = BidStatus.submitted;
                submitted_at = some now;
                total_amount = total;
              })
              s))
  withdraws :
      (s : Sourcing) (id : ℕ) (b : Bid) (q : Rfq)
      → lookup id s.bids ≡ some b
      → b.status ≡ BidStatus.submitted
      → lookup b.rfq_id s.rfqs ≡ some q
      → q.status ≢ RfqStatus.closed
      → q.status ≢ RfqStatus.cancelled
      → now ≤ q.closing_date
      → Step now s (with_bid id (record b { status = BidStatus.withdrawn }) s)
  evaluates :
      (s : Sourcing) (vs : Table BidEvaluation) (cs : List EvaluationCriteria)
      → ((bid : ℕ) → is_evaluated bid s.evaluations ≡ true → is_evaluated bid vs ≡ true)
      → Step now s (record s { evaluations = vs; criteria = cs })
  awards :
      (s : Sourcing) (id : ℕ) (a : Award) (b : Bid) (q : Rfq)
      → lookup id s.awards ≡ none
      → lookup a.bid_id s.bids ≡ some b
      → b.status ≡ BidStatus.submitted
      → lookup b.rfq_id s.rfqs ≡ some q
      → a.procurement_request_id ≡ q.procurement_request_id
      → is_evaluated a.bid_id s.evaluations ≡ true
      → any_row (λ c. c.procurement_request_id == a.procurement_request_id) s.awards ≡ false
      → Step now s (with_award id a b s)
