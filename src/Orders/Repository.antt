-- ===== src/Orders/Repository.antt =====
-- apps/api/src/purchase-orders/purchase-order.repository.ts, and the one query of
-- apps/api/src/bid-evaluations/evaluation.repository.ts that the service calls.
use enterprise_ai_procuremen.Prelude.{
  ℕ, Bool, not, ◌&&◌, ◌||◌, Option, none, some, String, ◌==◌, if◌then◌else◌,
}
use enterprise_ai_procuremen.Results.{
  ok, err, Done, record_not_found, unique_violation, pure, gets, or_throw, throw_if, modify,
  is_some, ◌>>=◌, ◌>>◌, ◌===◌, or_keep,
}
use enterprise_ai_procuremen.Store.{lookup, insert, erase, any_row, count_rows}
use enterprise_ai_procuremen.Schema.{
  Award, DocumentNumber, PurchaseOrder, PurchaseOrderStatus, Vendor, order_status_enum,
}
use enterprise_ai_procuremen.Database.{Database, M}

-- A row of another organisation is not found.
abbrev pub of_organisation : {R : Type 0} → (R → ℕ) → ℕ → Option R → Option R
of_organisation owner org none = none
of_organisation owner org (some r) = if owner r == org then some r else none

unfoldable pub find_award : ℕ → ℕ → Database → Option Award
find_award id org db = of_organisation (λ a. a.organisation_id) org (lookup id db.awards)

unfoldable pub find_order : ℕ → ℕ → Database → Option PurchaseOrder
find_order id org db = of_organisation (λ o. o.organisation_id) org (lookup id db.purchase_orders)

-- The `vendor` relation of a row, which the foreign key makes present.
unfoldable pub related_vendor : ℕ → M Vendor
related_vendor id db = or_throw (lookup id db.vendors) record_not_found db

abbrev pub same_number : DocumentNumber → DocumentNumber → Bool
same_number a b = (a.year == b.year) && (a.sequence == b.sequence)

-- `poNumber` and `awardId` are unique columns of the whole table. The primary key that the database
-- client makes is refused if a row has it.
unfoldable pub create_with_items : ℕ → PurchaseOrder → M PurchaseOrder
create_with_items id order = do
  used ← gets λ db. is_some (lookup id db.purchase_orders)
  throw_if used unique_violation
  taken ← gets λ db.
      any_row (λ o. same_number o.po_number order.po_number || (o.award_id == order.award_id))
        db.purchase_orders
  throw_if taken unique_violation
  modify λ db. record db { purchase_orders = insert id order db.purchase_orders }
  pure order

-- `prisma.purchaseOrder.update({ where: { id }, data })`
unfoldable pub update_order : ℕ → (PurchaseOrder → PurchaseOrder) → M PurchaseOrder
update_order id change db = elim (lookup id db.purchase_orders) [
  | none ↦ (err record_not_found, db)
  | some o ↦
      (ok (change o), record db { purchase_orders = insert id (change o) db.purchase_orders })
]

unfoldable pub delete_order : ℕ → M Done
delete_order id db = elim (lookup id db.purchase_orders) [
  | none ↦ (err record_not_found, db)
  | some _ ↦ (ok tt, record db { purchase_orders = erase id db.purchase_orders })
]

unfoldable pub issue_order : ℕ → ℕ → Option String → M PurchaseOrder
unfolding update_order
issue_order id issue_date notes = update_order id λ o. record o {
  status = PurchaseOrderStatus.issued;
  issue_date = some issue_date;
  notes = or_keep notes o.notes;
}

unfoldable pub acknowledge_order : ℕ → Option String → M PurchaseOrder
unfolding update_order
acknowledge_order id notes =
    update_order id
      λ o. record o { status = PurchaseOrderStatus.acknowledged; notes = or_keep notes o.notes }

unfoldable pub update_status : ℕ → PurchaseOrderStatus → M PurchaseOrder
unfolding update_order
update_status id status = update_order id λ o. record o { status = status }

unfoldable pub cancel_order : ℕ → M PurchaseOrder
unfolding update_order
cancel_order id = update_order id λ o. record o { status = PurchaseOrderStatus.cancelled }

abbrev pub count_by_organisation : ℕ → Database → ℕ
count_by_organisation org db = count_rows (λ o. o.organisation_id == org) db.purchase_orders

-- Whether `findActiveByAward` finds an order, of whatever organisation.
abbrev pub has_active_by_award : ℕ → Database → Bool
has_active_by_award award db =
    any_row (λ o. (o.award_id == award) && not (o.status === PurchaseOrderStatus.cancelled))
      db.purchase_orders
