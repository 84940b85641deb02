-- ===== src/Procurement/Tests.antt =====
-- A request from its draft to its approval, and the theorems at it.
use enterprise_ai_procuremen.Prelude.{
  ℕ, ◌≡◌, refl, none, some, [], ◌∷◌, List, Option, String, map, arith,
}
use enterprise_ai_procuremen.Results.{ok}
use enterprise_ai_procuremen.Store.{lookup}
use enterprise_ai_procuremen.Decimals.{
  of_cents, num_eq, num_mul, num_add, sum, to_fixed2, nearest, scale, half_even, coarsen,
}
use enterprise_ai_procuremen.Schema.{Role, admin}
use enterprise_ai_procuremen.Database.{Surroundings}
use enterprise_ai_procuremen.Samples.{administrator, surroundings}
use enterprise_ai_procuremen.Approvals.Schema.{
  ProcurementPriority, ProcurementRequest, ProcurementStatus, ApprovalWorkflow, Approvals,
}
use enterprise_ai_procuremen.Approvals.Repository.{
  find_request, find_workflow, create_workflow, update_workflow, update_request, advanced,
  approve_step_row,
}
use enterprise_ai_procuremen.Approvals.Service.{
  start_workflow, build_steps, resolve_approver, find_first_by_role, approve_step, new_workflow,
  new_step,
}
use enterprise_ai_procuremen.Approvals.History.{approves}
use enterprise_ai_procuremen.Approvals.History as Decisions
use enterprise_ai_procuremen.Approvals.Process.{Steps}
use enterprise_ai_procuremen.Approvals.Soundness.{AllSound}
use enterprise_ai_procuremen.Procurement.Repository.{create_request, create_item, submit_request}
use enterprise_ai_procuremen.Procurement.Service.{
  create_draft, submit, add_line_item, calculate_line_total, budget_matches_total,
}
use enterprise_ai_procuremen.Procurement.Refinement.{
  Call, Request, run, perform, run-Steps, IsApprovedByAll, approved-IsApprovedByAll,
}
use enterprise_ai_procuremen.Procurement.Completion.{start_workflow-approved}

abbrev start : Approvals
start = record {
  users = (70, record { organisation_id = 7; email = "admin@acme.test"; role = admin }) ∷ [];
  requests = [];
  workflows = [];
}

start-AllSound : AllSound start
start-AllSound = record {
  requests_keyed = tt;
  workflows_keyed = tt;
  sound = λ k w l. absurd (ground arith);
  backed = λ id r l e. absurd (ground arith);
}

abbrev at : ℕ → Surroundings
at new_id = record surroundings { new_id = new_id }

abbrev approval : Call
approval = (surroundings, administrator, Request.approves 6 none)

abbrev calls : List Call
calls =
    (
      at 5,
      administrator,
      Request.creates (record {
        title = "Chairs";
        description = "Office chairs";
        justification = "Worn out";
        department = "Operations";
        estimated_budget = 5000;
        currency = none;
        priority = none;
        required_delivery_date = 900;
      }),
    )
    ∷ (
      surroundings,
      administrator,
      Request.adds_item 5 (record { description = "Chair"; quantity = 5; unit_price = 1000 }),
    )
    ∷ (at 6, administrator, Request.submits 5)
    ∷ approval
    ∷ approval
    ∷ approval
    ∷ approval
    ∷ []

abbrev request : ProcurementRequest
request = record {
  organisation_id = 7;
  requester_id = 70;
  title = "Chairs";
  description = "Office chairs";
  justification = "Worn out";
  department = "Operations";
  estimated_budget = 5000;
  currency = "USD";
  priority = ProcurementPriority.medium;
  status = ProcurementStatus.approved;
  required_delivery_date = 900;
  items =
      (record {
        id = 0;
        description = "Chair";
        quantity = 5;
        unit_price = 1000;
        total_price = 5000;
      })
      ∷ [];
}

-- The request is approved at the end of the run.
approved : lookup 5 (run calls start).requests ≡ some request
unfolding run perform create_draft add_line_item submit approve_step create_request create_item
    submit_request start_workflow build_steps resolve_approver find_first_by_role create_workflow
    find_request find_workflow approve_step_row update_workflow update_request advanced
    calculate_line_total budget_matches_total of_cents num_eq num_mul num_add sum to_fixed2 nearest
    scale half_even coarsen
approved = refl

run-Steps_example : Steps start (run calls start)
run-Steps_example = run-Steps calls start tt

approved-IsApprovedByAll_example : IsApprovedByAll 5 (run calls start)
approved-IsApprovedByAll_example =
    approved-IsApprovedByAll calls start 5 request start-AllSound approved refl

abbrev submitted : Approvals
submitted = record start {
  requests = (5, record request { status = ProcurementStatus.submitted }) ∷ [];
}

-- All levels fall to the one administrator.
abbrev workflow : ApprovalWorkflow
workflow = new_workflow 5 (
    new_step 1 Role.department_head 70
    ∷ new_step 2 Role.procurement_manager 70
    ∷ new_step 3 Role.finance 70
    ∷ new_step 4 Role.admin 70
    ∷ [])

abbrev started : Approvals
started = record submitted { workflows = (6, workflow) ∷ [] }

starts : start_workflow (at 6) 7 5 submitted ≡ (ok workflow, started)
unfolding start_workflow build_steps resolve_approver find_first_by_role create_workflow
    find_request
starts = refl

abbrev visits : List (Surroundings × Option String)
visits =
    (surroundings, none)
    ∷ (surroundings, some "Fine")
    ∷ (surroundings, none)
    ∷ (surroundings, none)
    ∷ []

start_workflow-approved_example :
    (r : ProcurementRequest) × (lookup 5
        (Decisions.run (map (λ v. (v.0, administrator, 6, approves v.1)) visits) started).requests
      ≡ some r)
    × (r.status ≡ ProcurementStatus.approved)
start_workflow-approved_example =
    start_workflow-approved (at 6) 7 5 submitted started workflow starts administrator visits refl
      refl refl
