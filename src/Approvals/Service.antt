-- ===== src/Approvals/Service.antt =====
-- apps/api/src/approval-workflows/approval-workflow.service.ts. `mapWorkflow` is left out: a method
-- returns the row.
use enterprise_ai_procuremen.Prelude.{
  ℕ, Bool, ◌&&◌, ◌||◌, Option, none, some, List, [], ◌∷◌, String, find, ◌==◌, if◌then◌else◌,
}
use enterprise_ai_procuremen.Results.{
  ok, err, bad_request, forbidden, not_found, conflict, pure, gets, or_throw, throw_if,
  throw_unless, ◌>>=◌, ◌>>◌, ◌===◌,
}
use enterprise_ai_procuremen.Store.{Table, any_row}
use enterprise_ai_procuremen.Schema.{
  Role, User, department_head, procurement_manager, finance, admin, role_enum,
}
use enterprise_ai_procuremen.Database.{Caller, Surroundings}
use enterprise_ai_procuremen.Approvals.Schema.{
  ProcurementStatus, ApprovalStep, ApprovalStatus, ApprovalWorkflow, WorkflowStatus, M,
  approval_status_enum, workflow_status_enum, procurement_status_enum,
}
use enterprise_ai_procuremen.Approvals.Repository.{
  find_request, find_workflow, create_workflow, approve_step_row, reject_step_row,
}

-- APPROVAL_LEVELS: the level, its role and the roles that may act on it
abbrev pub approval_levels : List (ℕ × Role × List Role)
approval_levels =
    (1, department_head, department_head ∷ admin ∷ [])
    ∷ (2, procurement_manager, procurement_manager ∷ admin ∷ [])
    ∷ (3, finance, finance ∷ admin ∷ [])
    ∷ (4, admin, admin ∷ [])
    ∷ []

-- the first user of an organisation with a role; the table is in the order of creation
unfoldable pub find_first_by_role : ℕ → Role → Table User → Option ℕ
find_first_by_role org role [] = none
find_first_by_role org role ((id, u) ∷ us) =
    if (u.organisation_id == org) && (u.role === role)
    then some id
    else find_first_by_role org role us

unfoldable pub resolve_approver : ℕ → List Role → M ℕ
resolve_approver org [] s = (err (bad_request "No approver found for roles"), s)
resolve_approver org (role ∷ roles) s = elim (find_first_by_role org role s.users) [
  | some id ↦ (ok id, s)
  | none ↦ resolve_approver org roles s
]

abbrev pub new_step : ℕ → Role → ℕ → ApprovalStep
new_step level role approver = record {
  level = level;
  approver_id = approver;
  role = role;
  status = ApprovalStatus.pending;
  comments = none;
  acted_at = none;
}

unfoldable pub build_steps : ℕ → List (ℕ × Role × List Role) → M (List ApprovalStep)
build_steps org [] = pure []
build_steps org ((level, role, roles) ∷ levels) = do
  approver ← resolve_approver org roles
  rest ← build_steps org levels
  pure (new_step level role approver ∷ rest)

abbrev pub new_workflow : ℕ → List ApprovalStep → ApprovalWorkflow
new_workflow request_id steps = record {
  procurement_request_id = request_id;
  current_level = 1;
  status = WorkflowStatus.in_progress;
  steps = steps;
}

unfoldable pub start_workflow : Surroundings → ℕ → ℕ → M ApprovalWorkflow
start_workflow env org request_id = do
  request ←
      or_throw (← gets (find_request request_id org)) (not_found "Procurement request not found")
  throw_unless (request.status === ProcurementStatus.submitted)
      (bad_request "Approval workflow can only start for submitted procurement requests")
  existing ← gets λ s. any_row (λ w. w.procurement_request_id == request_id) s.workflows
  throw_if existing (conflict "An approval workflow already exists for this procurement request")
  steps ← build_steps org approval_levels
  create_workflow env.new_id (new_workflow request_id steps)

unfoldable pub get_workflow_or_throw : ℕ → ℕ → M ApprovalWorkflow
get_workflow_or_throw id org = do
  workflow ← or_throw (← gets (find_workflow id org)) (not_found "Approval workflow not found")
  throw_unless (workflow.status === WorkflowStatus.in_progress)
      (bad_request "Approval workflow is no longer active")
  pure workflow

abbrev pub current_step : ApprovalWorkflow → Option ApprovalStep
current_step w = find (λ s. s.level == w.current_level) w.steps

-- `assertCanAct`
abbrev pub can_act : Caller → ApprovalStep → Bool
can_act caller step = (caller.user_id == step.approver_id) || (caller.role === admin)

-- what `approveStep` and `rejectStep` check before they write
unfoldable pub actionable_step : Caller → ApprovalWorkflow → M ApprovalStep
actionable_step caller workflow = do
  step ← or_throw (current_step workflow) (not_found "Current approval step not found")
  throw_unless (can_act caller step)
      (forbidden "Only the assigned approver or an admin can perform this action")
  throw_unless (step.status === ApprovalStatus.pending)
      (bad_request "Current approval step is not pending")
  pure step

unfoldable pub approve_step : Surroundings → Caller → ℕ → Option String → M ApprovalWorkflow
unfolding get_workflow_or_throw actionable_step
approve_step env caller id comments = do
  workflow ← get_workflow_or_throw id caller.organisation_id
  step ← actionable_step caller workflow
  approve_step_row id workflow step.level comments env.now

unfoldable pub reject_step : Surroundings → Caller → ℕ → String → M ApprovalWorkflow
unfolding get_workflow_or_throw actionable_step
reject_step env caller id comments = do
  workflow ← get_workflow_or_throw id caller.organisation_id
  step ← actionable_step caller workflow
  reject_step_row id workflow step.level comments env.now
