-- ===== src/Evaluations/Repository.antt =====
-- apps/api/src/bid-evaluations/evaluation.repository.ts.
use enterprise_ai_procuremen.Prelude.{
  ℕ, Bool, false, ◌&&◌, ◌||◌, none, some, List, [], ◌∷◌, ◌++◌, any, ◌==◌, if◌then◌else◌,
}
use enterprise_ai_procuremen.Results.{
  ok, err, Done, record_not_found, unique_violation, is_some, pure, transaction, ◌>>=◌, ◌>>◌, ◌===◌,
}
use enterprise_ai_procuremen.Store.{Table, lookup, insert, has_key, any_row}
use enterprise_ai_procuremen.Schema.{BidStatus, bid_status_enum}
use enterprise_ai_procuremen.Approvals.Repository.{find_request}
use enterprise_ai_procuremen.Sourcing.Schema.{
  Bid, BidEvaluation, EvaluationCriteria, Award, Sourcing, M,
}
use enterprise_ai_procuremen.Sourcing.Lookup.{find_bid}
use enterprise_ai_procuremen.Bids.Repository.{update_bid}

-- The pair of `bidId` and `evaluatorId` is unique.
unfoldable pub insert_evaluation : ℕ → BidEvaluation → M BidEvaluation
insert_evaluation id v s =
    if has_key id s.evaluations
      || any_row (λ w. (w.bid_id == v.bid_id) && (w.evaluator_id == v.evaluator_id)) s.evaluations
    then (err unique_violation, s)
    else (ok v, record s { evaluations = insert id v s.evaluations })

unfoldable pub update_evaluation_row : ℕ → (BidEvaluation → BidEvaluation) → M BidEvaluation
update_evaluation_row id change s = elim (lookup id s.evaluations) [
  | none ↦ (err record_not_found, s)
  | some v ↦ (ok (change v), record s { evaluations = insert id (change v) s.evaluations })
]

-- Does `findEvaluations` find a row?
unfoldable pub has_evaluations : ℕ → ℕ → Sourcing → Bool
unfolding find_bid
has_evaluations bid_id org s =
    is_some (find_bid bid_id org s) && any_row (λ v. v.bid_id == bid_id) s.evaluations

-- Does `findAwardByProcurementRequest` find a row?
unfoldable pub has_award : ℕ → ℕ → Sourcing → Bool
unfolding find_request
has_award request_id org s =
    is_some (find_request request_id org s.approvals)
    && any_row (λ a. a.procurement_request_id == request_id) s.awards

-- `bidId` and `procurementRequestId` are unique columns.
unfoldable pub create_award : ℕ → Award → M Award
create_award id a s =
    if has_key id s.awards
      || any_row
          (λ c. (c.bid_id == a.bid_id) || (c.procurement_request_id == a.procurement_request_id))
          s.awards
    then (err unique_violation, s)
    else (ok a, record s { awards = insert id a s.awards })

unfoldable pub award_row : ℕ → Award → M Award
unfolding update_bid
award_row id a = transaction do
  award ← create_award id a
  update_bid award.bid_id λ b. record b { status = BidStatus.awarded }
  pure award

abbrev pub default_criteria : ℕ → List EvaluationCriteria
default_criteria org =
    record {
      organisation_id = org;
      name = "Technical";
      description = some "Technical capability and specification fit";
      weight = 1;
    }
    ∷ record {
      organisation_id = org;
      name = "Commercial";
      description = some "Pricing and commercial terms competitiveness";
      weight = 1;
    }
    ∷ record {
      organisation_id = org;
      name = "Compliance";
      description = some "Regulatory and policy compliance";
      weight = 1;
    }
    ∷ record {
      organisation_id = org;
      name = "Delivery";
      description = some "Delivery timeline and logistics capability";
      weight = 1;
    }
    ∷ []

unfoldable pub ensure_default_criteria : ℕ → M Done
ensure_default_criteria org s =
    if any (λ c. c.organisation_id == org) s.criteria
    then (ok tt, s)
    else (ok tt, record s { criteria = s.criteria ++ default_criteria org })

-- The bid of the row answers the procurement request, and is submitted or awarded.
abbrev pub of_request : ℕ → ℕ → Sourcing → BidEvaluation → Bool
of_request request_id org s v = elim (find_bid v.bid_id org s) [
  | none ↦ false
  | some (b, q) ↦
      (q.procurement_request_id == request_id)
      && ((b.status === BidStatus.submitted) || (b.status === BidStatus.awarded))
]

unfoldable pub select_evaluations :
    ℕ → ℕ → Sourcing → Table BidEvaluation → List (BidEvaluation × Bid)
unfolding find_bid
select_evaluations request_id org s [] = []
select_evaluations request_id org s ((_, v) ∷ t) =
    let rest = select_evaluations request_id org s t in
    if of_request request_id org s v
    then elim (find_bid v.bid_id org s) [ none ↦ rest | some (b, _) ↦ (v, b) ∷ rest ]
    else rest

unfoldable pub find_evaluations_by_procurement_request :
    ℕ → ℕ → Sourcing → List (BidEvaluation × Bid)
unfolding select_evaluations
find_evaluations_by_procurement_request request_id org s =
    select_evaluations request_id org s s.evaluations
