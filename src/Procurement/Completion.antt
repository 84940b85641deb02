-- ===== src/Procurement/Completion.antt =====
-- A workflow that was started for a request can be brought to the approval of the request.
use enterprise_ai_procuremen.Prelude.{
  ℕ, ◌≡◌, inl, inr, refl, ap, Option, some, List, [], ◌∷◌, map, length, String, All, arith,
  Option-cases,
}
use enterprise_ai_procuremen.Results.{ok, err, Failure, answer-cases}
use enterprise_ai_procuremen.Store.{lookup, lookup-insert_self}
use enterprise_ai_procuremen.Schema.{admin}
use enterprise_ai_procuremen.Database.{Caller, Surroundings}
use enterprise_ai_procuremen.Approvals.Schema.{
  ProcurementRequest, ProcurementStatus, ApprovalStep, ApprovalStatus, ApprovalWorkflow, Approvals,
}
use enterprise_ai_procuremen.Approvals.Repository.{find_request, create_workflow}
use enterprise_ai_procuremen.Approvals.Service.{
  start_workflow, build_steps, approval_levels, new_workflow,
}
use enterprise_ai_procuremen.Approvals.History.{run, approves}
use enterprise_ai_procuremen.Approvals.Process.{with_workflow}
use enterprise_ai_procuremen.Approvals.Completion.{IsReady, PendingFrom, run-approved}
use enterprise_ai_procuremen.Procurement.Submission.{build_steps_lem, build_steps-keeps}

all-PendingFrom :
    (n : ℕ) (steps : List ApprovalStep)
    → All (λ p. p.status ≡ ApprovalStatus.pending) steps
    → PendingFrom n steps
all-PendingFrom n [] a = tt
all-PendingFrom n (p ∷ ps) a = (λ le. a.0, all-PendingFrom n ps a.1)

module _ (env : Surroundings) (org id : ℕ) (s t : Approvals) (w : ApprovalWorkflow)
    (h : start_workflow env org id s ≡ (ok w, t)) where
  started_request :
      (r : ProcurementRequest) × (lookup id s.requests ≡ some r)
      × (r.organisation_id ≡ org)
      × (r.status ≡ ProcurementStatus.submitted)
  unfolding start_workflow find_request
  started_request = elim (Option-cases (lookup id s.requests)) [
    | inl n ↦ absurd (ground arith)
    | inr (r, e) ↦ (r, e, ground arith, ground arith)
  ]

  started_fails : (f : Failure) → build_steps org approval_levels s ≡ (err f, s) → ⊥
  unfolding start_workflow find_request
  started_fails f k = ground arith

  started_writes :
      (steps : List ApprovalStep)
      → build_steps org approval_levels s ≡ (ok steps, s)
      → (w ≡ new_workflow id steps) × (t ≡ with_workflow env.new_id w s)
  unfolding start_workflow create_workflow find_request
  started_writes steps k = ground arith

  -- After a start that succeeded, four approvals by an administrator of the organisation, at any times
  -- and with any comments, approve the request.
  pub start_workflow-approved :
      (caller : Caller) (visits : List (Surroundings × Option String))
      → caller.role ≡ admin
      → caller.organisation_id ≡ org
      → length visits ≡ 4
      → (r : ProcurementRequest) × (lookup id
            (run (map (λ v. (v.0, caller, env.new_id, approves v.1)) visits) t).requests
          ≡ some r)
        × (r.status ≡ ProcurementStatus.approved)
  start_workflow-approved caller visits a o n =
      let (r, e, ro, rs) = started_request in
      elim (answer-cases (build_steps org approval_levels s)
        (build_steps-keeps org approval_levels s)) [
          | inr (f, k) ↦ absurd (started_fails f k)
          | inl (steps, k) ↦
              let (l, p) = build_steps_lem org approval_levels s steps (ap (λ q. q.0) k) in
              let (wn, tn) = started_writes steps k in
              let ready : IsReady (new_workflow id steps) = record {
                four = l;
                open_ = refl;
                low = omega arith;
                high = omega arith;
                pending = all-PendingFrom 1 steps p;
              } in
              let found : lookup env.new_id t.workflows ≡ some (new_workflow id steps) =
                ground (arith, lookup-insert_self env.new_id w s.workflows) in
              let kept : lookup id t.requests ≡ some r = ground arith in
              (
                record r { status = ProcurementStatus.approved },
                run-approved caller env.new_id visits t (new_workflow id steps) r a found kept (cc)
                    ready (omega arith),
                refl,
              )
        ]
