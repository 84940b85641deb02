-- ===== src/Invoices/Service.antt =====
-- The requests of apps/api/src/invoices/invoices.service.ts. `mapInvoice` is left out: a method
-- returns the row.
use enterprise_ai_procuremen.Prelude.{
  ℕ, ◌+◌, Bool, true, false, ◌||◌, Option, none, some, List, String, ◌==◌,
}
use enterprise_ai_procuremen.Results.{
  Result, Done, bad_request, forbidden, not_found, pure, gets, or_throw, throw_if, throw_unless,
  ◌>>=◌, ◌>>◌, ◌===◌, or_else, or_keep,
}
use enterprise_ai_procuremen.Decimals.{Double, of_cents, num_add, to_fixed2}
use enterprise_ai_procuremen.Schema.{
  Role, user, procurement_manager, finance, admin, PurchaseOrderStatus, PurchaseOrder,
  GoodsReceiptStatus, Invoice, InvoiceItem, InvoiceStatus, invoice_status_enum, MatchStatus,
  match_status_enum, MatchingResult, Vendor,
}
use enterprise_ai_procuremen.Schema.Emails.{same_email}
use enterprise_ai_procuremen.Store.{lookup}
use enterprise_ai_procuremen.Database.{Database, M, Caller, Surroundings}
use enterprise_ai_procuremen.Orders.Repository.{find_order, of_organisation, related_vendor}
use enterprise_ai_procuremen.Receipts.Repository.{find_receipt}
use enterprise_ai_procuremen.Invoices.Repository.{
  find_invoice, create_with_items, update_invoice, delete_invoice, replace_items, submit_invoice,
  approve_invoice, reject_invoice, mark_invoice_paid, count_by_organisation,
}
use enterprise_ai_procuremen.Invoices.Amounts.{
  CreateInvoiceItemDto, build_invoice_items, calculate_items_subtotal, assert_amounts_valid,
  assert_invoice_items_total,
}
use enterprise_ai_procuremen.Invoices.Matching.{run_three_way_match}

-- INVOICE_CREATE_ROLES, INVOICE_APPROVE_ROLES, INVOICE_PAY_ROLES
abbrev pub invoice_create_roles : Role → Bool
invoice_create_roles admin = true
invoice_create_roles finance = true
invoice_create_roles user = true
invoice_create_roles _ = false

abbrev pub invoice_approve_roles : Role → Bool
invoice_approve_roles admin = true
invoice_approve_roles finance = true
invoice_approve_roles _ = false

abbrev pub invoice_pay_roles : Role → Bool
invoice_pay_roles = invoice_approve_roles

-- the roles that see every invoice in `canViewInvoice`
abbrev pub views_all : Role → Bool
views_all admin = true
views_all finance = true
views_all procurement_manager = true
views_all _ = false

-- ELIGIBLE_PO_STATUSES, ELIGIBLE_GRN_STATUSES, READ_ONLY_STATUSES
abbrev pub is_eligible_order : PurchaseOrderStatus → Bool
is_eligible_order PurchaseOrderStatus.issued = true
is_eligible_order PurchaseOrderStatus.acknowledged = true
is_eligible_order PurchaseOrderStatus.partially_delivered = true
is_eligible_order PurchaseOrderStatus.completed = true
is_eligible_order _ = false

abbrev pub is_eligible_receipt : GoodsReceiptStatus → Bool
is_eligible_receipt GoodsReceiptStatus.received = true
is_eligible_receipt GoodsReceiptStatus.partially_received = true
is_eligible_receipt GoodsReceiptStatus.completed = true
is_eligible_receipt _ = false

abbrev pub is_read_only : InvoiceStatus → Bool
is_read_only InvoiceStatus.rejected = true
is_read_only InvoiceStatus.paid = true
is_read_only _ = false

pub record CreateInvoiceDto : Type 0 where
  pub vendor_id : ℕ
  pub purchase_order_id : ℕ
  pub goods_receipt_id : ℕ
  pub invoice_date : ℕ
  pub due_date : ℕ
  pub subtotal : Double
  pub tax_amount : Double
  pub currency : Option String
  pub payment_terms : Option String
  pub notes : Option String
  pub items : List CreateInvoiceItemDto

pub record UpdateInvoiceDto : Type 0 where
  pub invoice_date : Option ℕ
  pub due_date : Option ℕ
  pub subtotal : Option Double
  pub tax_amount : Option Double
  pub payment_terms : Option String
  pub notes : Option String
  pub items : Option (List CreateInvoiceItemDto)

unfoldable pub find_vendor : ℕ → ℕ → Database → Option Vendor
find_vendor id org db = of_organisation (λ v. v.organisation_id) org (lookup id db.vendors)

unfoldable pub get_invoice_or_throw : ℕ → ℕ → M Invoice
get_invoice_or_throw org id = do
  or_throw (← gets (find_invoice id org)) (not_found "Invoice not found")

abbrev pub assert_can_create : Role → M Done
assert_can_create role =
    throw_unless (invoice_create_roles role)
      (forbidden "Insufficient permissions to manage invoices")

unfoldable pub can_view_invoice : String → Role → String → Bool
can_view_invoice user_email role vendor_email = views_all role || same_email user_email vendor_email

unfoldable pub assert_can_view_invoice : Caller → Invoice → M Done
unfolding can_view_invoice
assert_can_view_invoice caller invoice = do
  vendor ← related_vendor invoice.vendor_id
  throw_unless (can_view_invoice caller.email caller.role vendor.email)
      (forbidden "You cannot view this invoice")

-- The administrator and the finance role create invoices for any vendor.
unfoldable pub assert_vendor_access : Caller → String → M Done
assert_vendor_access caller vendor_email =
    throw_unless (invoice_approve_roles caller.role || same_email caller.email vendor_email)
      (forbidden "You can only create invoices for your own vendor account")

abbrev pub lift : {A : Type 0} → Result A → M A
lift r db = (r, db)

-- `create` after its checks of the vendor, the order and the receipt
unfoldable pub create_for : Surroundings → Caller → CreateInvoiceDto → PurchaseOrder → M Invoice
unfolding assert_amounts_valid
create_for env caller dto order = do
  items ← lift (build_invoice_items order.items dto.items)
  let subtotal = calculate_items_subtotal items
  let total_amount = to_fixed2 (num_add dto.tax_amount (of_cents subtotal))
  assert_amounts_valid dto.subtotal dto.tax_amount subtotal total_amount
  count ← gets (count_by_organisation caller.organisation_id)
  create_with_items env.new_id (record {
    invoice_number = record { year = env.year; sequence = count + 1 };
    vendor_id = dto.vendor_id;
    purchase_order_id = dto.purchase_order_id;
    goods_receipt_id = dto.goods_receipt_id;
    organisation_id = caller.organisation_id;
    invoice_date = dto.invoice_date;
    due_date = dto.due_date;
    subtotal = subtotal;
    tax_amount = to_fixed2 dto.tax_amount;
    total_amount = total_amount;
    currency = or_else dto.currency order.currency;
    payment_terms = or_keep dto.payment_terms order.payment_terms;
    status = InvoiceStatus.draft;
    notes = dto.notes;
    items = items;
    matching_result = none;
  })

unfoldable pub create : Surroundings → Caller → CreateInvoiceDto → M Invoice
unfolding assert_vendor_access
create env caller dto = do
  assert_can_create caller.role
  vendor ←
      or_throw (← gets (find_vendor dto.vendor_id caller.organisation_id))
        (not_found "Vendor not found")
  assert_vendor_access caller vendor.email
  order ←
      or_throw (← gets (find_order dto.purchase_order_id caller.organisation_id))
        (not_found "Purchase order not found")
  throw_unless (order.vendor_id == dto.vendor_id)
      (bad_request "Invoice vendor must match the purchase order vendor")
  throw_unless (is_eligible_order order.status)
      (bad_request "Invoices can only be created for active purchase orders")
  receipt ←
      or_throw (← gets (find_receipt dto.goods_receipt_id caller.organisation_id))
        (not_found "Goods receipt not found")
  throw_unless (receipt.purchase_order_id == dto.purchase_order_id)
      (bad_request "Goods receipt must belong to the referenced purchase order")
  throw_unless (is_eligible_receipt receipt.status)
      (bad_request "Goods receipt must be received before invoicing")
  create_for env caller dto order

-- the items that `update` builds from the request, if it has any
unfoldable pub updated_items :
    ℕ → Invoice → Option (List CreateInvoiceItemDto) → M (Option (List InvoiceItem))
updated_items org invoice none = pure none
updated_items org invoice (some dtos) = do
  order ←
      or_throw (← gets (find_order invoice.purchase_order_id org))
        (not_found "Purchase order not found")
  items ← lift (build_invoice_items order.items dtos)
  pure (some items)

abbrev pub edited : UpdateInvoiceDto → ℕ → Invoice → Invoice
edited dto tax i = record i {
  invoice_date = or_else dto.invoice_date i.invoice_date;
  due_date = or_else dto.due_date i.due_date;
  tax_amount = tax;
  payment_terms = or_keep dto.payment_terms i.payment_terms;
  notes = or_keep dto.notes i.notes;
}

-- the amounts after the update
abbrev pub new_subtotal : Invoice → Option (List InvoiceItem) → ℕ
new_subtotal invoice none = invoice.subtotal
new_subtotal invoice (some items) = calculate_items_subtotal items

abbrev pub new_tax : Invoice → Option Double → ℕ
new_tax invoice none = invoice.tax_amount
new_tax invoice (some tax) = to_fixed2 tax

abbrev pub check_declared : Option Double → ℕ → ℕ → ℕ → M Done
check_declared none tax subtotal total = pure tt
check_declared (some declared) tax subtotal total =
    assert_amounts_valid declared (of_cents tax) subtotal total

-- Without new items the subtotal is written only if the request names one.
abbrev pub write_update : ℕ → UpdateInvoiceDto → Option (List InvoiceItem) → ℕ → ℕ → ℕ → M Invoice
write_update id dto none tax subtotal total = update_invoice id λ i. record (edited dto tax i) {
  subtotal = elim dto.subtotal [ none ↦ i.subtotal | some _ ↦ subtotal ];
  total_amount = total;
}
write_update id dto (some items) tax subtotal total =
    replace_items id (edited dto tax) items subtotal total

-- `update` from the amounts on
unfoldable pub update_amounts :
    ℕ → UpdateInvoiceDto → Invoice → Option (List InvoiceItem) → M Invoice
update_amounts id dto invoice items = do
  let subtotal = new_subtotal invoice items
  let tax = new_tax invoice dto.tax_amount
  let total = to_fixed2 (num_add (of_cents tax) (of_cents subtotal))
  check_declared dto.subtotal tax subtotal total
  write_update id dto items tax subtotal total

-- `update` after its checks
unfoldable pub update_draft : ℕ → ℕ → UpdateInvoiceDto → Invoice → M Invoice
update_draft org id dto invoice = do
  items ← updated_items org invoice dto.items
  update_amounts id dto invoice items

unfoldable pub update : Caller → ℕ → UpdateInvoiceDto → M Invoice
unfolding get_invoice_or_throw assert_can_view_invoice
update caller id dto = do
  assert_can_create caller.role
  invoice ← get_invoice_or_throw caller.organisation_id id
  assert_can_view_invoice caller invoice
  throw_if (is_read_only invoice.status) (bad_request "Rejected or paid invoices cannot be edited")
  throw_unless (invoice.status === InvoiceStatus.draft)
      (bad_request "Only draft invoices can be updated")
  update_draft caller.organisation_id id dto invoice

unfoldable pub delete : Caller → ℕ → M Done
unfolding get_invoice_or_throw assert_can_view_invoice
delete caller id = do
  assert_can_create caller.role
  invoice ← get_invoice_or_throw caller.organisation_id id
  assert_can_view_invoice caller invoice
  throw_unless (invoice.status === InvoiceStatus.draft)
      (bad_request "Only draft invoices can be deleted")
  delete_invoice id

unfoldable pub submit : Caller → ℕ → Option String → M Invoice
unfolding get_invoice_or_throw assert_can_view_invoice submit_invoice assert_invoice_items_total
submit caller id notes = do
  assert_can_create caller.role
  invoice ← get_invoice_or_throw caller.organisation_id id
  assert_can_view_invoice caller invoice
  throw_unless (invoice.status === InvoiceStatus.draft)
      (bad_request "Only draft invoices can be submitted")
  assert_invoice_items_total invoice
  submit_invoice id notes

unfoldable pub match : Caller → ℕ → M Invoice
unfolding get_invoice_or_throw
match caller id = do
  throw_unless (invoice_approve_roles caller.role)
      (forbidden "Insufficient permissions to run three-way matching")
  invoice ← get_invoice_or_throw caller.organisation_id id
  throw_unless (invoice.status === InvoiceStatus.submitted)
      (bad_request "Only submitted invoices can be matched")
  run_three_way_match id invoice caller.organisation_id caller.user_id

-- `invoice.matchingResult?.matchStatus !== MatchStatus.MATCHED`, negated
abbrev pub has_matched : Option MatchingResult → Bool
has_matched none = false
has_matched (some r) = r.match_status === MatchStatus.matched

unfoldable pub approve : Caller → ℕ → Option String → M Invoice
unfolding get_invoice_or_throw approve_invoice
approve caller id notes = do
  throw_unless (invoice_approve_roles caller.role)
      (forbidden "Insufficient permissions to approve invoices")
  invoice ← get_invoice_or_throw caller.organisation_id id
  throw_unless (invoice.status === InvoiceStatus.matched)
      (bad_request "Only matched invoices can be approved")
  throw_unless (has_matched invoice.matching_result)
      (bad_request "Invoice must pass three-way matching before approval")
  approve_invoice id notes

unfoldable pub reject : Caller → ℕ → String → M Invoice
unfolding get_invoice_or_throw reject_invoice
reject caller id reason = do
  throw_unless (invoice_approve_roles caller.role)
      (forbidden "Insufficient permissions to reject invoices")
  invoice ← get_invoice_or_throw caller.organisation_id id
  throw_unless
      ((invoice.status === InvoiceStatus.submitted) || (invoice.status === InvoiceStatus.matched))
      (bad_request "Only submitted or matched invoices can be rejected")
  reject_invoice id reason

unfoldable pub mark_paid : Caller → ℕ → M Invoice
unfolding get_invoice_or_throw mark_invoice_paid
mark_paid caller id = do
  throw_unless (invoice_pay_roles caller.role)
      (forbidden "Insufficient permissions to mark invoices as paid")
  invoice ← get_invoice_or_throw caller.organisation_id id
  throw_unless (invoice.status === InvoiceStatus.approved)
      (bad_request "Only approved invoices can be marked as paid")
  mark_invoice_paid id
