-- ===== src/Procurement/Service.antt =====
-- The requests of apps/api/src/procurement/procurement.service.ts. `mapRequest` is left out: a method
-- returns the row. The validation of a request admits amounts of at most two decimal places, which
-- are numbers of cents here.
use enterprise_ai_procuremen.Prelude.{ℕ, Bool, Option, List, [], map, String, is_empty, ◌==◌}
use enterprise_ai_procuremen.Results.{
  Done, bad_request, forbidden, not_found, pure, gets, or_throw, throw_if, throw_unless, ◌>>=◌,
  ◌>>◌, ◌===◌, or_else,
}
use enterprise_ai_procuremen.Decimals.{Double, of_nat, of_cents, num_mul, num_eq, to_fixed2, sum}
use enterprise_ai_procuremen.Database.{Surroundings}
use enterprise_ai_procuremen.Approvals.Schema.{
  ProcurementItem, ProcurementPriority, ProcurementRequest, ProcurementStatus, ApprovalWorkflow, M,
  procurement_status_enum,
}
use enterprise_ai_procuremen.Approvals.Repository.{find_request}
use enterprise_ai_procuremen.Approvals.Service.{start_workflow}
use enterprise_ai_procuremen.Procurement.Repository.{
  create_request, update_row, delete_request, submit_request, create_item, find_item, delete_item,
}

pub record CreateProcurementRequestDto : Type 0 where
  pub title : String
  pub description : String
  pub justification : String
  pub department : String
  pub estimated_budget : ℕ
  pub currency : Option String
  pub priority : Option ProcurementPriority
  pub required_delivery_date : ℕ

pub record UpdateProcurementRequestDto : Type 0 where
  pub title : Option String
  pub description : Option String
  pub justification : Option String
  pub department : Option String
  pub estimated_budget : Option ℕ
  pub currency : Option String
  pub priority : Option ProcurementPriority
  pub required_delivery_date : Option ℕ

pub record CreateProcurementItemDto : Type 0 where
  pub description : String
  pub quantity : ℕ
  pub unit_price : ℕ

unfoldable pub get_request_or_throw : ℕ → ℕ → M ProcurementRequest
get_request_or_throw org id = do
  or_throw (← gets (find_request id org)) (not_found "Procurement request not found")

abbrev pub draft_message : String
draft_message = "Only draft procurement requests can be modified"

abbrev pub assert_draft_editable : ProcurementRequest → M Done
assert_draft_editable r =
    throw_unless (r.status === ProcurementStatus.draft) (bad_request draft_message)

abbrev pub new_draft : ℕ → ℕ → CreateProcurementRequestDto → ProcurementRequest
new_draft org requester dto = record {
  organisation_id = org;
  requester_id = requester;
  title = dto.title;
  description = dto.description;
  justification = dto.justification;
  department = dto.department;
  estimated_budget = dto.estimated_budget;
  currency = or_else dto.currency "USD";
  priority = or_else dto.priority ProcurementPriority.medium;
  status = ProcurementStatus.draft;
  required_delivery_date = dto.required_delivery_date;
  items = [];
}

unfoldable pub create_draft :
    Surroundings → ℕ → ℕ → CreateProcurementRequestDto → M ProcurementRequest
create_draft env org requester dto = create_request env.new_id (new_draft org requester dto)

abbrev pub edited : UpdateProcurementRequestDto → ProcurementRequest → ProcurementRequest
edited dto r = record r {
  title = or_else dto.title r.title;
  description = or_else dto.description r.description;
  justification = or_else dto.justification r.justification;
  department = or_else dto.department r.department;
  estimated_budget = or_else dto.estimated_budget r.estimated_budget;
  currency = or_else dto.currency r.currency;
  priority = or_else dto.priority r.priority;
  required_delivery_date = or_else dto.required_delivery_date r.required_delivery_date;
}

unfoldable pub update_draft : ℕ → ℕ → UpdateProcurementRequestDto → M ProcurementRequest
unfolding get_request_or_throw
update_draft org id dto = do
  request ← get_request_or_throw org id
  assert_draft_editable request
  update_row id (edited dto)

unfoldable pub delete_draft : ℕ → ℕ → M Done
unfolding get_request_or_throw
delete_draft org id = do
  request ← get_request_or_throw org id
  assert_draft_editable request
  delete_request id

abbrev pub item_totals : List ProcurementItem → List Double
item_totals items = map (λ i. of_cents i.total_price) items

unfoldable pub calculate_total_cost : ProcurementRequest → Double
calculate_total_cost r = sum (item_totals r.items)

unfoldable pub budget_matches_total : ProcurementRequest → Bool
unfolding calculate_total_cost
budget_matches_total r = num_eq (of_cents r.estimated_budget) (calculate_total_cost r)

-- The answer carries the row as submitted, and the workflow.
unfoldable pub submit : Surroundings → ℕ → ℕ → M (ProcurementRequest × ApprovalWorkflow)
unfolding get_request_or_throw
submit env org id = do
  request ← get_request_or_throw org id
  assert_draft_editable request
  throw_if (is_empty request.items)
      (bad_request "Cannot submit a procurement request with no line items")
  throw_unless (budget_matches_total request)
      (bad_request "Estimated budget must equal the sum of line item totals")
  submitted ← submit_request id
  workflow ← start_workflow env org id
  pure (submitted, workflow)

-- `Number((quantity * unitPrice).toFixed(2))`
unfoldable pub calculate_line_total : ℕ → ℕ → ℕ
calculate_line_total quantity unit_price =
    to_fixed2 (num_mul (of_nat quantity) (of_cents unit_price))

unfoldable pub add_line_item :
    Surroundings → ℕ → ℕ → CreateProcurementItemDto → M ProcurementRequest
unfolding get_request_or_throw
add_line_item env org id dto = do
  request ← get_request_or_throw org id
  assert_draft_editable request
  create_item id (record {
    id = env.new_item_id 0;
    description = dto.description;
    quantity = dto.quantity;
    unit_price = dto.unit_price;
    total_price = calculate_line_total dto.quantity dto.unit_price;
  })
  get_request_or_throw org id

unfoldable pub remove_line_item : ℕ → ℕ → M Done
remove_line_item org item_id = do
  (id, request) ←
      or_throw (← gets λ s. find_item item_id s.requests) (not_found "Line item not found")
  throw_unless (request.organisation_id == org)
      (forbidden "Line item does not belong to your organisation")
  assert_draft_editable request
  delete_item id item_id
  pure tt
