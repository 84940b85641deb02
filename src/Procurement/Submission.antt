-- ===== src/Procurement/Submission.antt =====
-- What each request of the procurement service writes.
use enterprise_ai_procuremen.Prelude.{
  ℕ, ◌≡◌, ◌⊎◌, inl, inr, refl, false, none, some, List, [], ◌∷◌, map, All, arith, ◌==◌,
  Option-cases,
}
use enterprise_ai_procuremen.Results.{ok, err, Failure, answer-cases}
use enterprise_ai_procuremen.Relations.{stays, moves}
use enterprise_ai_procuremen.Store.{lookup, any_row}
use enterprise_ai_procuremen.Schema.{Role}
use enterprise_ai_procuremen.Database.{Surroundings}
use enterprise_ai_procuremen.Approvals.Schema.{
  ProcurementRequest, ProcurementStatus, ApprovalStep, ApprovalStatus, Approvals,
}
use enterprise_ai_procuremen.Approvals.Repository.{find_request, create_workflow}
use enterprise_ai_procuremen.Approvals.Service.{
  start_workflow, build_steps, resolve_approver, approval_levels, new_workflow, new_step,
}
use enterprise_ai_procuremen.Approvals.Process.{with_workflow, levels, Steps, starts}

resolve_approver-keeps :
    (org : ℕ) (roles : List Role) (s : Approvals) → (resolve_approver org roles s).1 ≡ s
unfolding resolve_approver
resolve_approver-keeps org [] s = refl
resolve_approver-keeps org (role ∷ roles) s = ground (arith, resolve_approver-keeps org roles s)

pub build_steps-keeps :
    (org : ℕ) (ls : List (ℕ × Role × List Role)) (s : Approvals) → (build_steps org ls s).1 ≡ s
unfolding build_steps
build_steps-keeps org [] s = refl
build_steps-keeps org ((level, role, roles) ∷ ls) s =
    ground (arith, resolve_approver-keeps org roles s, build_steps-keeps org ls s)

-- The steps that are built have the given levels, and wait.
pub build_steps_lem :
    (org : ℕ) (ls : List (ℕ × Role × List Role)) (s : Approvals) (steps : List ApprovalStep)
    → (build_steps org ls s).0 ≡ ok steps
    → (levels steps ≡ map (λ l. l.0) ls) × All (λ p. p.status ≡ ApprovalStatus.pending) steps
unfolding build_steps
build_steps_lem org [] s steps e = let q : [] ≡ steps = cc in rw (← q) (refl, tt)
build_steps_lem org ((level, role, roles) ∷ ls) s steps e =
    elim (answer-cases (resolve_approver org roles s) (resolve_approver-keeps org roles s)) [
      | inr (f, k) ↦ absurd (ground arith)
      | inl (a, k) ↦ elim (answer-cases (build_steps org ls s) (build_steps-keeps org ls s)) [
        | inr (f, q) ↦ absurd (ground arith)
        | inl (rest, q) ↦
            let same : new_step level role a ∷ rest ≡ steps = ground arith in
            let (l, w) = build_steps_lem org ls s rest (ground arith) in
            rw (← same, l) (refl, (refl, w))
      ]
    ]

module _ (env : Surroundings) (org id : ℕ) (s : Approvals) where
  start_fails :
      (f : Failure)
      → build_steps org approval_levels s ≡ (err f, s)
      → (start_workflow env org id s).1 ≡ s
  unfolding start_workflow find_request
  start_fails f k = ground arith

  start_missing : lookup id s.requests ≡ none → (start_workflow env org id s).1 ≡ s
  unfolding start_workflow find_request
  start_missing n = ground arith

  -- Starting a workflow for a submitted request of the organisation writes a fresh workflow, or nothing.
  start_writes :
      (r : ProcurementRequest) (steps : List ApprovalStep)
      → lookup id s.requests ≡ some r
      → build_steps org approval_levels s ≡ (ok steps, s)
      → ((start_workflow env org id s).1 ≡ s)
        ⊎ ((r.status ≡ ProcurementStatus.submitted)
            × (lookup env.new_id s.workflows ≡ none)
            × (any_row (λ w. w.procurement_request_id == id) s.workflows ≡ false)
            × ((start_workflow env org id s).1
                ≡ with_workflow env.new_id (new_workflow id steps) s))
  unfolding start_workflow create_workflow find_request
  start_writes r steps e k = ground arith

  -- Starting a workflow is a step, or it writes nothing.
  pub start_workflow-Steps : Steps s (start_workflow env org id s).1
  start_workflow-Steps = elim (Option-cases (lookup id s.requests)) [
    | inl n ↦ stays (start_missing n)
    | inr (r, e) ↦
        elim (answer-cases (build_steps org approval_levels s)
          (build_steps-keeps org approval_levels s)) [
            | inr (f, k) ↦ stays (start_fails f k)
            | inl (steps, k) ↦ elim (start_writes r steps e k) [
              | inl same ↦ stays same
              | inr (d, n, v, t) ↦
                  let (l, w) = build_steps_lem org approval_levels s steps (ground arith) in
                  moves t (starts s env.new_id id r steps e d n v l w)
            ]
          ]
  ]
