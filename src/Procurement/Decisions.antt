-- ===== src/Procurement/Decisions.antt =====
-- Each decision on a workflow is a step of the process, or writes nothing.
use enterprise_ai_procuremen.Prelude.{
  ℕ, ◌≡◌, ap, inl, inr, none, some, Option, String, arith, Option-cases,
}
use enterprise_ai_procuremen.Relations.{stays, moves}
use enterprise_ai_procuremen.Store.{lookup}
use enterprise_ai_procuremen.Database.{Surroundings, Caller}
use enterprise_ai_procuremen.Approvals.Schema.{
  ProcurementRequest, ApprovalStep, ApprovalWorkflow, Approvals,
}
use enterprise_ai_procuremen.Approvals.Repository.{find_request, find_workflow}
use enterprise_ai_procuremen.Approvals.Service.{current_step, approve_step, reject_step}
use enterprise_ai_procuremen.Approvals.Lifecycle.{approve_step_iff, reject_step_iff}
use enterprise_ai_procuremen.Approvals.Process.{Steps, climbs, concludes, refuses}

module _ (env : Surroundings) (caller : Caller) (id : ℕ) (s : Approvals) where
  approve_no_workflow :
      (comments : Option String)
      → lookup id s.workflows ≡ none
      → (approve_step env caller id comments s).1 ≡ s
  unfolding approve_step find_workflow
  approve_no_workflow comments n = ground arith

  reject_no_workflow :
      (comments : String)
      → lookup id s.workflows ≡ none
      → (reject_step env caller id comments s).1 ≡ s
  unfolding reject_step find_workflow
  reject_no_workflow comments n = ground arith

  module _ (w : ApprovalWorkflow) (e : lookup id s.workflows ≡ some w) where
    approve_no_request :
        (comments : Option String)
        → lookup w.procurement_request_id s.requests ≡ none
        → (approve_step env caller id comments s).1 ≡ s
    unfolding approve_step find_workflow find_request
    approve_no_request comments n = ground arith

    reject_no_request :
        (comments : String)
        → lookup w.procurement_request_id s.requests ≡ none
        → (reject_step env caller id comments s).1 ≡ s
    unfolding reject_step find_workflow find_request
    reject_no_request comments n = ground arith

    approve_no_step :
        (comments : Option String)
        → current_step w ≡ none
        → (approve_step env caller id comments s).1 ≡ s
    unfolding approve_step find_workflow find_request
    approve_no_step comments n = ground arith

    reject_no_step :
        (comments : String) → current_step w ≡ none → (reject_step env caller id comments s).1 ≡ s
    unfolding reject_step find_workflow find_request
    reject_no_step comments n = ground arith

    module _ (r : ProcurementRequest) (step : ApprovalStep)
        (f : lookup w.procurement_request_id s.requests ≡ some r)
        (c : current_step w ≡ some step) where
      approve_found : (comments : Option String) → Steps s (approve_step env caller id comments s).1
      approve_found comments = elim (approve_step_iff env caller id s w r step e f c comments) [
        | inl ((o, a, p, m), l, _, _, t) ↦
            moves (ap (λ q. q.1) t) (climbs s caller id w step comments env.now (e, a, c, p, m) l)
        | inr (inl ((o, a, p, m), l, _, t)) ↦
            moves (ap (λ q. q.1) t)
              (concludes s caller id w step comments env.now r (e, a, c, p, m) l f)
        | inr (inr (_, _, t)) ↦ stays t
      ]

      reject_found : (comments : String) → Steps s (reject_step env caller id comments s).1
      reject_found comments = elim (reject_step_iff env caller id s w r step e f c comments) [
        | inl ((o, a, p, m), _, t) ↦
            moves (ap (λ q. q.1) t)
              (refuses s caller id w step comments env.now r (e, a, c, p, m) f)
        | inr (_, _, t) ↦ stays t
      ]

  pub approve_step-Steps :
      (comments : Option String) → Steps s (approve_step env caller id comments s).1
  approve_step-Steps comments = elim (Option-cases (lookup id s.workflows)) [
    | inl n ↦ stays (approve_no_workflow comments n)
    | inr (w, e) ↦ elim (Option-cases (lookup w.procurement_request_id s.requests)) [
      | inl n ↦ stays (approve_no_request w e comments n)
      | inr (r, f) ↦ elim (Option-cases (current_step w)) [
        | inl n ↦ stays (approve_no_step w e comments n)
        | inr (step, c) ↦ approve_found w e r step f c comments
      ]
    ]
  ]

  pub reject_step-Steps : (comments : String) → Steps s (reject_step env caller id comments s).1
  reject_step-Steps comments = elim (Option-cases (lookup id s.workflows)) [
    | inl n ↦ stays (reject_no_workflow comments n)
    | inr (w, e) ↦ elim (Option-cases (lookup w.procurement_request_id s.requests)) [
      | inl n ↦ stays (reject_no_request w e comments n)
      | inr (r, f) ↦ elim (Option-cases (current_step w)) [
        | inl n ↦ stays (reject_no_step w e comments n)
        | inr (step, c) ↦ reject_found w e r step f c comments
      ]
    ]
  ]
