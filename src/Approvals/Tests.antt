-- ===== src/Approvals/Tests.antt =====
-- A workflow at its last level, and the theorems at it.
use enterprise_ai_procuremen.Prelude.{
  true, ◌+◌, ◌≡◌, ◌≢◌, ◌⊎◌, ◌≤◌, refl, none, some, [], ◌∷◌, List, arith,
}
use enterprise_ai_procuremen.Results.{ok, is_err}
use enterprise_ai_procuremen.Store.{lookup, insert}
use enterprise_ai_procuremen.Schema.{admin}
use enterprise_ai_procuremen.Samples.{administrator, surroundings}
use enterprise_ai_procuremen.Approvals.Schema.{
  ProcurementPriority, ProcurementRequest, ProcurementStatus, ApprovalStep, ApprovalStatus,
  ApprovalWorkflow, WorkflowStatus, Approvals,
}
use enterprise_ai_procuremen.Approvals.Repository.{advanced, refused}
use enterprise_ai_procuremen.Approvals.Service.{approve_step, reject_step}
use enterprise_ai_procuremen.Approvals.Lifecycle.{
  MayAct, closed, approve_step_iff, reject_step_iff, NonePendingAbove, refused-NonePendingAbove,
}
use enterprise_ai_procuremen.Approvals.History.{Call, run, approves, rejects, closed_workflow_stays}

abbrev step : ApprovalStep
step = record {
  level = 4;
  approver_id = 70;
  role = admin;
  status = ApprovalStatus.pending;
  comments = none;
  acted_at = none;
}

abbrev workflow : ApprovalWorkflow
workflow = record {
  procurement_request_id = 5;
  current_level = 4;
  status = WorkflowStatus.in_progress;
  steps = step ∷ [];
}

abbrev request : ProcurementRequest
request = record {
  organisation_id = 7;
  requester_id = 71;
  title = "Chairs";
  description = "Office chairs";
  justification = "Worn out";
  department = "Operations";
  estimated_budget = 5000;
  currency = "USD";
  priority = ProcurementPriority.medium;
  status = ProcurementStatus.submitted;
  required_delivery_date = 900;
  items =
      (record {
        id = 51;
        description = "Chair";
        quantity = 5;
        unit_price = 1000;
        total_price = 5000;
      })
      ∷ [];
}

abbrev tables : Approvals
tables = record { users = []; requests = (5, request) ∷ []; workflows = (6, workflow) ∷ [] }

approve_step_iff_example :
    let w' = advanced step.level none surroundings.now workflow in
    (MayAct administrator workflow request step
      × (workflow.current_level ≤ 3)
      × (w'.current_level ≡ workflow.current_level + 1)
      × (w'.status ≡ workflow.status)
      × (approve_step surroundings administrator 6 none tables
          ≡ (ok w', record tables { workflows = insert 6 w' tables.workflows })))
    ⊎ (MayAct administrator workflow request step
        × (4 ≤ workflow.current_level)
        × (w'.status ≡ WorkflowStatus.approved)
        × (approve_step surroundings administrator 6 none tables
            ≡ (ok w', closed 6 w' request ProcurementStatus.approved tables)))
    ⊎ (¬ MayAct administrator workflow request step
        × (is_err (approve_step surroundings administrator 6 none tables).0 ≡ true)
        × ((approve_step surroundings administrator 6 none tables).1 ≡ tables))
approve_step_iff_example =
    approve_step_iff surroundings administrator 6 tables workflow request step refl refl refl none

reject_step_iff_example :
    let w' = refused step.level "no" surroundings.now workflow in
    (MayAct administrator workflow request step
      × (w'.status ≡ WorkflowStatus.rejected)
      × (reject_step surroundings administrator 6 "no" tables
          ≡ (ok w', closed 6 w' request ProcurementStatus.rejected tables)))
    ⊎ (¬ MayAct administrator workflow request step
        × (is_err (reject_step surroundings administrator 6 "no" tables).0 ≡ true)
        × ((reject_step surroundings administrator 6 "no" tables).1 ≡ tables))
reject_step_iff_example =
    reject_step_iff surroundings administrator 6 tables workflow request step refl refl refl "no"

refused-NonePendingAbove_example : NonePendingAbove 4 (refused 4 "no" 500 workflow).steps
refused-NonePendingAbove_example = refused-NonePendingAbove 4 "no" 500 workflow

abbrev finished : ApprovalWorkflow
finished = record workflow { status = WorkflowStatus.approved }

abbrev with_finished : Approvals
with_finished = record tables { workflows = (6, finished) ∷ [] }

finished-closed : finished.status ≢ WorkflowStatus.in_progress
finished-closed e = ground arith

abbrev calls : List Call
calls =
    (surroundings, administrator, 6, rejects "no")
    ∷ (surroundings, administrator, 6, approves none)
    ∷ []

closed_workflow_stays_example : lookup 6 (run calls with_finished).workflows ≡ some finished
closed_workflow_stays_example =
    closed_workflow_stays calls with_finished 6 finished refl finished-closed
