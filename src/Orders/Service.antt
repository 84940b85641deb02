-- ===== src/Orders/Service.antt =====
-- apps/api/src/purchase-orders/purchase-orders.service.ts. The mapping of a row to the response
-- (`mapPurchaseOrder`) is left out: a method returns the row.
use enterprise_ai_procuremen.Prelude.{
  ℕ, ◌+◌, Bool, true, false, Option, none, List, [], ◌∷◌, map, String, is_empty, if◌then◌else◌,
}
use enterprise_ai_procuremen.Results.{
  Done, bad_request, forbidden, not_found, conflict, pure, gets, or_throw, throw_if, throw_unless,
  ◌>>=◌, ◌>>◌, ◌===◌, or_else, or_keep,
}
use enterprise_ai_procuremen.Decimals.{Double, of_cents, sum, num_eq, to_fixed2}
use enterprise_ai_procuremen.Schema.{
  Role, procurement_manager, finance, admin, BidItem, BidStatus, bid_status_enum, OrderItem,
  PurchaseOrder, PurchaseOrderStatus, order_status_enum, DocumentNumber,
}
use enterprise_ai_procuremen.Schema.Emails.{same_email}
use enterprise_ai_procuremen.Database.{Database, M, Caller, Surroundings}
use enterprise_ai_procuremen.Orders.Repository.{
  find_award, find_order, related_vendor, create_with_items, update_order, delete_order,
  issue_order, acknowledge_order, cancel_order, count_by_organisation, has_active_by_award,
}

-- PO_MANAGEMENT_ROLES, PO_VIEW_ROLES
abbrev pub po_management_roles : Role → Bool
po_management_roles admin = true
po_management_roles procurement_manager = true
po_management_roles finance = true
po_management_roles _ = false

abbrev pub po_view_roles : Role → Bool
po_view_roles = po_management_roles

abbrev pub is_read_only : PurchaseOrderStatus → Bool
is_read_only PurchaseOrderStatus.issued = true
is_read_only PurchaseOrderStatus.acknowledged = true
is_read_only PurchaseOrderStatus.partially_delivered = true
is_read_only PurchaseOrderStatus.completed = true
is_read_only _ = false

pub record CreatePurchaseOrderDto : Type 0 where
  pub award_id : ℕ
  pub delivery_address : Option String
  pub notes : Option String
  pub expected_delivery_date : ℕ

pub record UpdatePurchaseOrderDto : Type 0 where
  pub expected_delivery_date : Option ℕ
  pub payment_terms : Option String
  pub delivery_address : Option String
  pub notes : Option String

-- the amounts of the items, as `decimalToNumber` gives them
abbrev pub item_totals : List OrderItem → List Double
item_totals items = map (λ i. of_cents i.total_price) items

unfoldable pub calculate_items_total : List OrderItem → Double
calculate_items_total items = sum (item_totals items)

unfoldable pub total_matches_items : PurchaseOrder → Bool
unfolding calculate_items_total
total_matches_items order = num_eq (calculate_items_total order.items) (of_cents order.total_amount)

abbrev pub assert_total_matches_items : PurchaseOrder → M Done
assert_total_matches_items order =
    throw_unless (total_matches_items order)
      (bad_request "Purchase order total amount must equal the sum of line items")

unfoldable pub order_items : (ℕ → ℕ) → ℕ → List BidItem → List OrderItem
order_items new_id n [] = []
order_items new_id n (i ∷ is) =
    record {
      id = new_id n;
      description = i.description;
      quantity = i.quantity;
      unit_price = i.unit_price;
      total_price = i.total_price;
    }
    ∷ order_items new_id (n + 1) is

unfoldable pub generate_po_number : ℕ → ℕ → Database → DocumentNumber
generate_po_number year org db = record { year = year; sequence = count_by_organisation org db + 1 }

unfoldable pub create : Surroundings → Caller → CreatePurchaseOrderDto → M PurchaseOrder
create env caller dto = do
  award ←
      or_throw (← gets (find_award dto.award_id caller.organisation_id))
        (not_found "Award not found")
  throw_unless (award.bid.status === BidStatus.awarded)
      (bad_request "Purchase orders can only be generated from awarded bids")
  throw_if (is_empty award.bid.items)
      (bad_request "Awarded bid must contain at least one line item")
  existing_active ← gets (has_active_by_award dto.award_id)
  throw_if existing_active (conflict "An active purchase order already exists for this award")
  let items = order_items env.new_item_id 0 award.bid.items
  po_number ← gets (generate_po_number env.year caller.organisation_id)
  order ← create_with_items env.new_id (record {
    po_number = po_number;
    organisation_id = caller.organisation_id;
    vendor_id = award.bid.vendor_id;
    award_id = dto.award_id;
    procurement_request_id = award.procurement_request_id;
    issued_by_id = caller.user_id;
    issue_date = none;
    expected_delivery_date = dto.expected_delivery_date;
    total_amount = to_fixed2 (calculate_items_total items);
    currency = award.bid.currency;
    payment_terms = award.bid.payment_terms;
    delivery_address = dto.delivery_address;
    notes = dto.notes;
    status = PurchaseOrderStatus.draft;
    items = items;
  })
  assert_total_matches_items order
  pure order

unfoldable pub get_order_or_throw : ℕ → ℕ → M PurchaseOrder
get_order_or_throw org id = do
  or_throw (← gets (find_order id org)) (not_found "Purchase order not found")

abbrev pub assert_can_manage : Role → M Done
assert_can_manage role =
    throw_unless (po_management_roles role)
      (forbidden "Insufficient permissions to manage purchase orders")

abbrev pub assert_vendor_representative : String → String → M Done
assert_vendor_representative user_email vendor_email =
    throw_unless (same_email user_email vendor_email)
      (forbidden "Only the assigned vendor representative can perform this action")

unfoldable pub assert_editable : PurchaseOrder → M Done
assert_editable order = do
  throw_if (order.status === PurchaseOrderStatus.cancelled)
      (bad_request "Cancelled purchase orders cannot be edited")
  throw_if (is_read_only order.status)
      (bad_request "Issued purchase orders are read-only and cannot be edited")

unfoldable pub find_one : Caller → ℕ → M PurchaseOrder
unfolding get_order_or_throw
find_one caller id = do
  order ← get_order_or_throw caller.organisation_id id
  vendor ← related_vendor order.vendor_id
  if po_view_roles caller.role
      then pure tt
      else assert_vendor_representative caller.email vendor.email
  pure order

unfoldable pub update : Caller → ℕ → UpdatePurchaseOrderDto → M PurchaseOrder
unfolding get_order_or_throw assert_editable update_order
update caller id dto = do
  assert_can_manage caller.role
  order ← get_order_or_throw caller.organisation_id id
  assert_editable order
  updated ← update_order id λ o. record o {
    expected_delivery_date = or_else dto.expected_delivery_date o.expected_delivery_date;
    payment_terms = or_keep dto.payment_terms o.payment_terms;
    delivery_address = or_keep dto.delivery_address o.delivery_address;
    notes = or_keep dto.notes o.notes;
  }
  assert_total_matches_items updated
  pure updated

unfoldable pub delete : Caller → ℕ → M Done
unfolding get_order_or_throw delete_order
delete caller id = do
  assert_can_manage caller.role
  order ← get_order_or_throw caller.organisation_id id
  throw_unless (order.status === PurchaseOrderStatus.draft)
      (bad_request "Only draft purchase orders can be deleted")
  delete_order id

unfoldable pub issue : Surroundings → Caller → ℕ → Option ℕ → Option String → M PurchaseOrder
unfolding get_order_or_throw issue_order
issue env caller id issue_date notes = do
  assert_can_manage caller.role
  order ← get_order_or_throw caller.organisation_id id
  throw_unless (order.status === PurchaseOrderStatus.draft)
      (bad_request "Only draft purchase orders can be issued")
  assert_total_matches_items order
  issue_order id (or_else issue_date env.now) notes

unfoldable pub acknowledge : Caller → ℕ → Option String → M PurchaseOrder
unfolding get_order_or_throw acknowledge_order related_vendor
acknowledge caller id notes = do
  order ← get_order_or_throw caller.organisation_id id
  vendor ← related_vendor order.vendor_id
  assert_vendor_representative caller.email vendor.email
  throw_unless (order.status === PurchaseOrderStatus.issued)
      (bad_request "Only issued purchase orders can be acknowledged")
  acknowledge_order id notes

unfoldable pub cancel : Caller → ℕ → M PurchaseOrder
unfolding get_order_or_throw cancel_order
cancel caller id = do
  assert_can_manage caller.role
  order ← get_order_or_throw caller.organisation_id id
  throw_if (order.status === PurchaseOrderStatus.cancelled)
      (bad_request "Purchase order is already cancelled")
  throw_if (order.status === PurchaseOrderStatus.completed)
      (bad_request "Completed purchase orders cannot be cancelled")
  cancel_order id
