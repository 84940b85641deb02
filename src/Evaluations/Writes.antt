-- ===== src/Evaluations/Writes.antt =====
-- Each request of the evaluation service is a step of the sourcing process, or writes nothing.
use enterprise_ai_procuremen.Prelude.{
  ℕ, ◌≡◌, ◌⊎◌, inl, inr, refl, true, false, none, some, List, [], ◌∷◌, ◌++◌, arith, ◌==◌,
  Option-cases, ◌||◌, Bool,
}
use enterprise_ai_procuremen.Results.{ok, err, unique_violation}
use enterprise_ai_procuremen.Relations.{Chain, stays, moves}
use enterprise_ai_procuremen.Store.{Table, lookup, insert, any_row, any_row-insert}
use enterprise_ai_procuremen.Schema.{BidStatus}
use enterprise_ai_procuremen.Database.{Surroundings}
use enterprise_ai_procuremen.Sourcing.Schema.{
  Rfq, Bid, BidEvaluation, EvaluationCriteria, Award, Sourcing,
}
use enterprise_ai_procuremen.Sourcing.Lookup.{find_bid, find_evaluation}
use enterprise_ai_procuremen.Sourcing.Process.{Step, evaluates, awards, with_award, is_evaluated}
use enterprise_ai_procuremen.Bids.Repository.{update_bid}
use enterprise_ai_procuremen.Bids.Writes.{found_bid, found_rfq}
use enterprise_ai_procuremen.Evaluations.Repository.{
  insert_evaluation, update_evaluation_row, ensure_default_criteria, default_criteria, create_award,
  award_row, has_evaluations,
}
use enterprise_ai_procuremen.Evaluations.Service.{
  CreateEvaluationDto, UpdateEvaluationDto, AwardBidDto, create_evaluation, new_evaluation,
  update_evaluation, rescored, award_bid, new_award,
}

-- the tables with a new evaluation, and with the criteria after it
abbrev with_evaluation : ℕ → BidEvaluation → List EvaluationCriteria → Sourcing → Sourcing
with_evaluation id v cs s = record s { evaluations = insert id v s.evaluations; criteria = cs }

evaluate :
    {now : ℕ} {s t : Sourcing} (id : ℕ) (v : BidEvaluation) (cs : List EvaluationCriteria)
    → ((old : BidEvaluation) → lookup id s.evaluations ≡ some old → v.bid_id ≡ old.bid_id)
    → t ≡ with_evaluation id v cs s
    → Chain (Step now) s t
evaluate {now} {s} id v cs same t = moves t (
    evaluates s (insert id v s.evaluations) cs λ bid e.
      any_row-insert (λ (w : BidEvaluation). w.bid_id == bid) id v s.evaluations
        (λ old l h. ground (arith, same old l)) e)

insert_evaluation-cases :
    (id : ℕ) (v : BidEvaluation) (s : Sourcing)
    → (insert_evaluation id v s ≡ (err unique_violation, s))
      ⊎ ((lookup id s.evaluations ≡ none)
          × (insert_evaluation id v s ≡ (ok v, with_evaluation id v s.criteria s)))
unfolding insert_evaluation
insert_evaluation-cases id v s = ground arith

create_award-cases :
    (id : ℕ) (a : Award) (s : Sourcing)
    → (create_award id a s ≡ (err unique_violation, s))
      ⊎ ((lookup id s.awards ≡ none)
          × (any_row
                (λ c.
                  (c.bid_id == a.bid_id) || (c.procurement_request_id == a.procurement_request_id))
                s.awards
              ≡ false)
          × (create_award id a s ≡ (ok a, record s { awards = insert id a s.awards })))
unfolding create_award
create_award-cases id a s = ground arith

ensure_default_criteria-cases :
    (org : ℕ) (s : Sourcing)
    → (ensure_default_criteria org s ≡ (ok tt, s))
      ⊎ (ensure_default_criteria org s
          ≡ (ok tt, record s { criteria = s.criteria ++ default_criteria org }))
unfolding ensure_default_criteria
ensure_default_criteria-cases org s = ground arith

module _ (env : Surroundings) (org evaluator : ℕ) (dto : CreateEvaluationDto) (s : Sourcing) where
  create_missing :
      find_bid dto.bid_id org s ≡ none → (create_evaluation env org evaluator dto s).1 ≡ s
  unfolding create_evaluation
  create_missing n = ground arith

  create_found :
      (b : Bid) (q : Rfq)
      → find_bid dto.bid_id org s ≡ some (b, q)
      → ((create_evaluation env org evaluator dto s).1 ≡ s)
        ⊎ ((lookup env.new_id s.evaluations ≡ none)
            × (((create_evaluation env org evaluator dto s).1
                  ≡ with_evaluation env.new_id (new_evaluation evaluator dto) s.criteria s)
                ⊎ ((create_evaluation env org evaluator dto s).1
                    ≡ with_evaluation env.new_id
                        (new_evaluation evaluator dto)
                        (s.criteria ++ default_criteria org)
                        s)))
  unfolding create_evaluation
  create_found b q f =
      let v = new_evaluation evaluator dto in
      elim (insert_evaluation-cases env.new_id v s) [
        | inl taken ↦ inl (ground arith)
        | inr (n, w) ↦
            elim (ensure_default_criteria-cases org (with_evaluation env.new_id v s.criteria s)) [
              | inl kept ↦ ground arith
              | inr added ↦ ground arith
            ]
      ]

  pub create_evaluation-Steps : Chain (Step env.now) s (create_evaluation env org evaluator dto s).1
  create_evaluation-Steps = elim (Option-cases (find_bid dto.bid_id org s)) [
    | inl n ↦ stays (create_missing n)
    | inr ((b, q), f) ↦ elim (create_found b q f) [
      | inl same ↦ stays same
      | inr (n, inl t) ↦ evaluate env.new_id _ _ (λ old l. absurd (ground arith)) t
      | inr (n, inr t) ↦ evaluate env.new_id _ _ (λ old l. absurd (ground arith)) t
    ]
  ]

module _ (env : Surroundings) (org id : ℕ) (dto : UpdateEvaluationDto) (s : Sourcing) where
  update_missing : find_evaluation id org s ≡ none → (update_evaluation org id dto s).1 ≡ s
  unfolding update_evaluation
  update_missing n = ground arith

  found_row :
      (v : BidEvaluation) (b : Bid)
      → find_evaluation id org s ≡ some (v, b)
      → lookup id s.evaluations ≡ some v
  unfolding find_evaluation
  found_row v b f = ground arith

  update_found :
      (v : BidEvaluation) (b : Bid)
      → find_evaluation id org s ≡ some (v, b)
      → lookup id s.evaluations ≡ some v
      → ((update_evaluation org id dto s).1 ≡ s)
        ⊎ ((update_evaluation org id dto s).1 ≡ with_evaluation id (rescored v dto v) s.criteria s)
  unfolding update_evaluation update_evaluation_row
  update_found v b f e = ground arith

  pub update_evaluation-Steps : Chain (Step env.now) s (update_evaluation org id dto s).1
  update_evaluation-Steps = elim (Option-cases (find_evaluation id org s)) [
    | inl n ↦ stays (update_missing n)
    | inr ((v, b), f) ↦
        let e = found_row v b f in
        elim (update_found v b f e) [
          | inl same ↦ stays same
          | inr t ↦ evaluate id (rescored v dto v) s.criteria (λ old l. ground arith) t
        ]
  ]

module _ (env : Surroundings) (org user : ℕ) (dto : AwardBidDto) (s : Sourcing) where
  award_missing : find_bid dto.bid_id org s ≡ none → (award_bid env org user dto s).1 ≡ s
  unfolding award_bid
  award_missing n = ground arith

  award_found :
      (b : Bid) (q : Rfq)
      → find_bid dto.bid_id org s ≡ some (b, q)
      → lookup dto.bid_id s.bids ≡ some b
      → let a = new_award q.procurement_request_id user env.now dto in
        ((award_bid env org user dto s).1 ≡ s)
        ⊎ ((lookup env.new_id s.awards ≡ none)
            × (b.status ≡ BidStatus.submitted)
            × (is_evaluated dto.bid_id s.evaluations ≡ true)
            × (any_row
                  (λ c.
                    (c.bid_id == a.bid_id)
                    || (c.procurement_request_id == a.procurement_request_id))
                  s.awards
                ≡ false)
            × ((award_bid env org user dto s).1 ≡ with_award env.new_id a b s))
  unfolding award_bid award_row has_evaluations update_bid
  award_found b q f e =
      elim (create_award-cases env.new_id (new_award q.procurement_request_id user env.now dto) s) [
        | inl taken ↦ inl (ground arith)
        | inr (n, free, w) ↦ ground arith
      ]

  any_row-or :
      (p q : Award → Bool) (t : Table Award)
      → any_row (λ c. p c || q c) t ≡ false
      → any_row q t ≡ false
  any_row-or p q [] h = refl
  any_row-or p q ((k, c) ∷ t) h = ground (arith, any_row-or p q t)

  pub award_bid-Steps : Chain (Step env.now) s (award_bid env org user dto s).1
  award_bid-Steps = elim (Option-cases (find_bid dto.bid_id org s)) [
    | inl n ↦ stays (award_missing n)
    | inr ((b, q), f) ↦
        let e = found_bid dto.bid_id org s b q f in
        elim (award_found b q f e) [
          | inl same ↦ stays same
          | inr (n, d, v, free, t) ↦
              let a = new_award q.procurement_request_id user env.now dto in
              moves t (
                awards s env.new_id a b q n e d (found_rfq dto.bid_id org s b q f) refl v (
                  any_row-or (λ c. c.bid_id == a.bid_id)
                    (λ c. c.procurement_request_id == a.procurement_request_id) s.awards free))
        ]
  ]
