-- ===== src/Approvals/Repository.antt =====
-- apps/api/src/approval-workflows/approval.repository.ts, and the queries of the repositories of
-- requests and users that the service makes. Every write is in one transaction, and names rows that
-- foreign keys make present.
use enterprise_ai_procuremen.Prelude.{
  ℕ, ◌+◌, ◌&&◌, ◌||◌, Option, none, some, List, [], ◌∷◌, String, leb, ltb, ◌==◌, if◌then◌else◌,
}
use enterprise_ai_procuremen.Results.{
  ok, err, Done, record_not_found, unique_violation, pure, ◌>>=◌, ◌===◌, or_keep, transaction,
}
use enterprise_ai_procuremen.Store.{lookup, insert, has_key, any_row}
use enterprise_ai_procuremen.Schema.{role_enum}
use enterprise_ai_procuremen.Orders.Repository.{of_organisation}
use enterprise_ai_procuremen.Approvals.Schema.{
  ProcurementRequest, ProcurementStatus, ApprovalStep, ApprovalStatus, ApprovalWorkflow,
  WorkflowStatus, Approvals, M, approval_status_enum,
}

-- MAX_APPROVAL_LEVEL
abbrev pub max_approval_level : ℕ
max_approval_level = 4

unfoldable pub find_request : ℕ → ℕ → Approvals → Option ProcurementRequest
find_request id org s = of_organisation (λ r. r.organisation_id) org (lookup id s.requests)

-- A workflow belongs to the organisation of its request.
unfoldable pub find_workflow : ℕ → ℕ → Approvals → Option ApprovalWorkflow
unfolding find_request
find_workflow id org s = elim (lookup id s.workflows) [
  | none ↦ none
  | some w ↦ elim (find_request w.procurement_request_id org s) [ none ↦ none | some _ ↦ some w ]
]

-- `id` is the primary key, and `procurementRequestId` is a unique column.
unfoldable pub create_workflow : ℕ → ApprovalWorkflow → M ApprovalWorkflow
create_workflow id w s =
    if has_key id s.workflows
      || any_row (λ v. v.procurement_request_id == w.procurement_request_id) s.workflows
    then (err unique_violation, s)
    else (ok w, record s { workflows = insert id w s.workflows })

unfoldable pub set_step : ℕ → (ApprovalStep → ApprovalStep) → List ApprovalStep → List ApprovalStep
set_step level change [] = []
set_step level change (s ∷ ss) =
    (if s.level == level then change s else s) ∷ set_step level change ss

-- `updateMany` of the pending steps above a level
unfoldable pub skip_above : ℕ → List ApprovalStep → List ApprovalStep
skip_above level [] = []
skip_above level (s ∷ ss) =
    (if (s.status === ApprovalStatus.pending) && ltb level s.level
      then record s { status = ApprovalStatus.skipped }
      else s)
    ∷ skip_above level ss

unfoldable pub update_workflow : ℕ → (ApprovalWorkflow → ApprovalWorkflow) → M ApprovalWorkflow
update_workflow id change s = elim (lookup id s.workflows) [
  | none ↦ (err record_not_found, s)
  | some w ↦ (ok (change w), record s { workflows = insert id (change w) s.workflows })
]

unfoldable pub update_request : ℕ → ProcurementStatus → M Done
update_request id status s = elim (lookup id s.requests) [
  | none ↦ (err record_not_found, s)
  | some r ↦ (ok tt, record s { requests = insert id (record r { status = status }) s.requests })
]

abbrev pub approved_step : Option String → ℕ → ApprovalStep → ApprovalStep
approved_step comments now s = record s {
  status = ApprovalStatus.approved;
  comments = or_keep comments s.comments;
  acted_at = some now;
}

abbrev pub rejected_step : String → ℕ → ApprovalStep → ApprovalStep
rejected_step comments now s = record s {
  status = ApprovalStatus.rejected;
  comments = some comments;
  acted_at = some now;
}

-- the workflow after the approval of its step at `level`
unfoldable pub advanced : ℕ → Option String → ℕ → ApprovalWorkflow → ApprovalWorkflow
unfolding set_step
advanced level comments now w =
    let steps = set_step level (approved_step comments now) w.steps in
    if leb max_approval_level w.current_level
    then record w { status = WorkflowStatus.approved; steps = steps }
    else record w { current_level = w.current_level + 1; steps = steps }

unfoldable pub approve_step_row : ℕ → ApprovalWorkflow → ℕ → Option String → ℕ → M ApprovalWorkflow
unfolding update_workflow update_request
approve_step_row id w level comments now = transaction do
  updated ← update_workflow id (advanced level comments now)
  _ ←
      (if leb max_approval_level w.current_level
        then update_request w.procurement_request_id ProcurementStatus.approved
        else pure tt)
  pure updated

-- the workflow after the rejection of its step at `level`
unfoldable pub refused : ℕ → String → ℕ → ApprovalWorkflow → ApprovalWorkflow
unfolding set_step skip_above
refused level comments now w = record w {
  status = WorkflowStatus.rejected;
  steps = skip_above level (set_step level (rejected_step comments now) w.steps);
}

unfoldable pub reject_step_row : ℕ → ApprovalWorkflow → ℕ → String → ℕ → M ApprovalWorkflow
unfolding update_workflow update_request
reject_step_row id w level comments now = transaction do
  updated ← update_workflow id (refused level comments now)
  _ ← update_request w.procurement_request_id ProcurementStatus.rejected
  pure updated
