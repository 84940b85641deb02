-- ===== src/Evaluations/Service.antt =====
-- Evaluations and awards in apps/api/src/bid-evaluations/bid-evaluation.service.ts. `mapEvaluation` and
-- `mapAward` are left out: a method returns the row. The scores of a request are numbers from 0 to 100.
use enterprise_ai_procuremen.Prelude.{ℕ, Option, String, ◌==◌}
use enterprise_ai_procuremen.Results.{
  ok, err, Done, Failure, bad_request, not_found, conflict, unique_violation, pure, gets, or_throw,
  throw_if, throw_unless, ◌>>=◌, ◌>>◌, ◌===◌, or_else, or_keep,
}
use enterprise_ai_procuremen.Store.{any_row}
use enterprise_ai_procuremen.Decimals.{Double, num_add, to_fixed2}
use enterprise_ai_procuremen.Schema.{BidStatus, bid_status_enum}
use enterprise_ai_procuremen.Database.{Surroundings}
use enterprise_ai_procuremen.Sourcing.Schema.{Bid, BidEvaluation, Award, M}
use enterprise_ai_procuremen.Sourcing.Lookup.{find_bid, find_evaluation}
use enterprise_ai_procuremen.Evaluations.Repository.{
  insert_evaluation, update_evaluation_row, has_evaluations, has_award, award_row,
  ensure_default_criteria,
}

pub record CreateEvaluationDto : Type 0 where
  pub bid_id : ℕ
  pub technical_score : Double
  pub commercial_score : Double
  pub compliance_score : Double
  pub delivery_score : Double
  pub comments : Option String

pub record UpdateEvaluationDto : Type 0 where
  pub technical_score : Option Double
  pub commercial_score : Option Double
  pub compliance_score : Option Double
  pub delivery_score : Option Double
  pub comments : Option String

pub record AwardBidDto : Type 0 where
  pub bid_id : ℕ
  pub award_reason : String

unfoldable pub calculate_total_score : Double → Double → Double → Double → ℕ
calculate_total_score technical commercial compliance delivery =
    to_fixed2 (num_add (num_add (num_add technical commercial) compliance) delivery)

-- The organisation that `findById` was asked for is the bid's, so the other test never fails.
unfoldable pub assert_evaluable_bid : Bid → M Done
assert_evaluable_bid bid =
    throw_unless (bid.status === BidStatus.submitted)
      (bad_request "Only submitted bids may be evaluated")

-- the `catch` clause of `createEvaluation`
abbrev pub as_conflict : Failure → Failure
as_conflict unique_violation = conflict "You have already evaluated this bid"
as_conflict e = e

abbrev pub catching : {A : Type 0} → M A → M A
catching m s = let (r, s') = m s in elim r [ ok a ↦ (ok a, s') | err e ↦ (err (as_conflict e), s') ]

abbrev pub new_evaluation : ℕ → CreateEvaluationDto → BidEvaluation
new_evaluation evaluator dto = record {
  bid_id = dto.bid_id;
  evaluator_id = evaluator;
  technical_score = dto.technical_score;
  commercial_score = dto.commercial_score;
  compliance_score = dto.compliance_score;
  delivery_score = dto.delivery_score;
  total_score =
      calculate_total_score dto.technical_score dto.commercial_score dto.compliance_score
        dto.delivery_score;
  comments = dto.comments;
}

unfoldable pub create_evaluation : Surroundings → ℕ → ℕ → CreateEvaluationDto → M BidEvaluation
unfolding assert_evaluable_bid
create_evaluation env org evaluator dto = do
  (bid, _) ← or_throw (← gets (find_bid dto.bid_id org)) (not_found "Bid not found")
  assert_evaluable_bid bid
  catching do
    evaluation ← insert_evaluation env.new_id (new_evaluation evaluator dto)
    ensure_default_criteria org
    pure evaluation

unfoldable pub assert_evaluation_editable : BidEvaluation → Bid → M Done
assert_evaluation_editable evaluation bid = do
  awarded ← gets λ s. any_row (λ a. a.bid_id == evaluation.bid_id) s.awards
  throw_if awarded (bad_request "Awarded bids cannot be edited")
  throw_if (bid.status === BidStatus.awarded) (bad_request "Awarded bids cannot be edited")

abbrev pub rescored : BidEvaluation → UpdateEvaluationDto → BidEvaluation → BidEvaluation
rescored evaluation dto v =
    let technical = or_else dto.technical_score evaluation.technical_score in
    let commercial = or_else dto.commercial_score evaluation.commercial_score in
    let compliance = or_else dto.compliance_score evaluation.compliance_score in
    let delivery = or_else dto.delivery_score evaluation.delivery_score in
    record v {
      technical_score = technical;
      commercial_score = commercial;
      compliance_score = compliance;
      delivery_score = delivery;
      total_score = calculate_total_score technical commercial compliance delivery;
      comments = or_keep dto.comments v.comments;
    }

unfoldable pub update_evaluation : ℕ → ℕ → UpdateEvaluationDto → M BidEvaluation
unfolding assert_evaluation_editable
update_evaluation org id dto = do
  (evaluation, bid) ←
      or_throw (← gets (find_evaluation id org)) (not_found "Bid evaluation not found")
  assert_evaluation_editable evaluation bid
  update_evaluation_row id (rescored evaluation dto)

abbrev pub new_award : ℕ → ℕ → ℕ → AwardBidDto → Award
new_award request_id user now dto = record {
  bid_id = dto.bid_id;
  procurement_request_id = request_id;
  awarded_by_id = user;
  award_reason = dto.award_reason;
  awarded_at = now;
}

unfoldable pub award_bid : Surroundings → ℕ → ℕ → AwardBidDto → M Award
award_bid env org user dto = do
  (bid, rfq) ← or_throw (← gets (find_bid dto.bid_id org)) (not_found "Bid not found")
  throw_unless (bid.status === BidStatus.submitted)
      (bad_request "Only submitted bids may be awarded")
  existing ← gets (has_award rfq.procurement_request_id org)
  throw_if existing (conflict "An award already exists for this procurement request")
  evaluated ← gets (has_evaluations dto.bid_id org)
  throw_unless evaluated (bad_request "Bid must be evaluated before it can be awarded")
  award_row env.new_id (new_award rfq.procurement_request_id user env.now dto)
