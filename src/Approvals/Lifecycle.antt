-- ===== src/Approvals/Lifecycle.antt =====
-- What approving and rejecting a step does to a workflow and to its request.
use enterprise_ai_procuremen.Prelude.{
  ℕ, ◌+◌, ◌≡◌, ◌⊎◌, ◌≤◌, true, Option, some, List, [], ◌∷◌, String, All, arith,
}
use enterprise_ai_procuremen.Results.{ok, is_err}
use enterprise_ai_procuremen.Store.{lookup, insert}
use enterprise_ai_procuremen.Schema.{admin}
use enterprise_ai_procuremen.Database.{Caller, Surroundings}
use enterprise_ai_procuremen.Approvals.Schema.{
  ProcurementRequest, ProcurementStatus, ApprovalStep, ApprovalStatus, ApprovalWorkflow,
  WorkflowStatus, Approvals,
}
use enterprise_ai_procuremen.Approvals.Repository.{
  find_workflow, advanced, refused, set_step, skip_above, rejected_step, approve_step_row,
  reject_step_row, update_workflow, update_request,
}
use enterprise_ai_procuremen.Approvals.Service.{current_step, approve_step, reject_step}

-- the tables with a workflow and a request status written
abbrev pub closed :
    ℕ → ApprovalWorkflow → ProcurementRequest → ProcurementStatus → Approvals → Approvals
closed id w r status s = record s {
  workflows = insert id w s.workflows;
  requests = insert w.procurement_request_id (record r { status = status }) s.requests;
}

-- The workflow is in progress for a request of the caller's organisation, its step is pending, and the
-- caller is the step's approver or an administrator.
abbrev pub MayAct : Caller → ApprovalWorkflow → ProcurementRequest → ApprovalStep → Type 0
MayAct caller w r step =
    (r.organisation_id ≡ caller.organisation_id)
    × (w.status ≡ WorkflowStatus.in_progress)
    × (step.status ≡ ApprovalStatus.pending)
    × ((caller.user_id ≡ step.approver_id) ⊎ (caller.role ≡ admin))

module _ (env : Surroundings) (caller : Caller) (id : ℕ) (s : Approvals) (w : ApprovalWorkflow)
    (r : ProcurementRequest) (step : ApprovalStep) (e : lookup id s.workflows ≡ some w)
    (f : lookup w.procurement_request_id s.requests ≡ some r) (c : current_step w ≡ some step) where
  -- Approving succeeds exactly for a caller who may act on the current step. Below the last level the
  -- workflow moves one level up and the request stays; at the last level both become approved.
  -- Otherwise the answer is a failure and nothing is written.
  pub approve_step_iff :
      (comments : Option String)
      → let w' = advanced step.level comments env.now w in
        (MayAct caller w r step
          × (w.current_level ≤ 3)
          × (w'.current_level ≡ w.current_level + 1)
          × (w'.status ≡ w.status)
          × (approve_step env caller id comments s
              ≡ (ok w', record s { workflows = insert id w' s.workflows })))
        ⊎ (MayAct caller w r step
            × (4 ≤ w.current_level)
            × (w'.status ≡ WorkflowStatus.approved)
            × (approve_step env caller id comments s
                ≡ (ok w', closed id w' r ProcurementStatus.approved s)))
        ⊎ (¬ MayAct caller w r step
            × (is_err (approve_step env caller id comments s).0 ≡ true)
            × ((approve_step env caller id comments s).1 ≡ s))
  unfolding approve_step approve_step_row find_workflow update_workflow update_request advanced
  approve_step_iff comments = ground arith

  -- Rejecting succeeds exactly for a caller who may act on the current step; then the workflow and the
  -- request are rejected. Otherwise the answer is a failure and nothing is written.
  pub reject_step_iff :
      (comments : String)
      → let w' = refused step.level comments env.now w in
        (MayAct caller w r step
          × (w'.status ≡ WorkflowStatus.rejected)
          × (reject_step env caller id comments s
              ≡ (ok w', closed id w' r ProcurementStatus.rejected s)))
        ⊎ (¬ MayAct caller w r step
            × (is_err (reject_step env caller id comments s).0 ≡ true)
            × ((reject_step env caller id comments s).1 ≡ s))
  unfolding reject_step reject_step_row find_workflow update_workflow update_request refused
  reject_step_iff comments = ground arith

-- No step above the level is pending.
abbrev pub NonePendingAbove : ℕ → List ApprovalStep → Type 0
NonePendingAbove level steps = All (λ s. s.status ≡ ApprovalStatus.pending → s.level ≤ level) steps

skip_above-NonePendingAbove :
    (level : ℕ) (steps : List ApprovalStep) → NonePendingAbove level (skip_above level steps)
unfolding skip_above
skip_above-NonePendingAbove level [] = tt
skip_above-NonePendingAbove level (s ∷ ss) =
    (λ h. ground arith, skip_above-NonePendingAbove level ss)

-- After a rejection, no step above the rejected level is pending.
pub refused-NonePendingAbove :
    (level : ℕ) (comments : String) (now : ℕ) (w : ApprovalWorkflow)
    → NonePendingAbove level (refused level comments now w).steps
unfolding refused
refused-NonePendingAbove level comments now w =
    skip_above-NonePendingAbove level (set_step level (rejected_step comments now) w.steps)
