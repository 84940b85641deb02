-- ===== src/Invoices/Effects.antt =====
-- What `create` of apps/api/src/invoices/invoices.service.ts does to the table of invoices, and the
-- failure that it never answers.
use text.Mathlib.Text.{◌==◌}
use enterprise_ai_procuremen.Prelude.{
  ◌≡◌, Bool, true, false, ◌≢◌, ◌∙◌, refl, ap, sym, inl, inr, none, some, Option-cases, List, [],
  ◌∷◌, arith,
}
use enterprise_ai_procuremen.Results.{
  Result, ok, err, bad_request, forbidden, not_found, unique_violation, Failure, Result-cases,
}
use enterprise_ai_procuremen.Store.{lookup, insert}
use enterprise_ai_procuremen.Schema.{
  Invoice, InvoiceStatus, OrderItem, PurchaseOrder, GoodsReceipt, Vendor,
}
use enterprise_ai_procuremen.Database.{Database, Caller, Surroundings}
use enterprise_ai_procuremen.Orders.Repository.{find_order}
use enterprise_ai_procuremen.Receipts.Repository.{find_receipt}
use enterprise_ai_procuremen.Invoices.Repository.{create_with_items}
use enterprise_ai_procuremen.Invoices.Amounts.{
  CreateInvoiceItemDto, build_invoice_items, calculate_items_subtotal, assert_amounts_valid,
  subtotal_message, total_message,
}
use enterprise_ai_procuremen.Invoices.Totals.{total_valid-computed}
use enterprise_ai_procuremen.Invoices.Service.{
  CreateInvoiceDto, create, create_for, assert_vendor_access, find_vendor,
}

-- the failure of the check of the total
is_total : Failure → Bool
is_total (bad_request s) = s == "Invoice total amount must equal subtotal plus tax"
is_total _ = false

abbrev answers_total : {A : Type 0} → Result A → Bool
answers_total (ok _) = false
answers_total (err f) = is_total f

total_answer : {A : Type 0} (r : Result A) → r ≡ err total_message → answers_total r ≡ false → ⊥
unfolding is_total
total_answer r h n = absurd (true-false (ap answers_total (sym h) ∙ n))
  where
    true-false : true ≡ false → ⊥
    true-false e = cc

-- The other failures of `create` are not that one.
others :
    (is_total (bad_request "Purchase order item not found on purchase order") ≡ false)
    × (is_total subtotal_message ≡ false)
    × (is_total unique_violation ≡ false)
unfolding is_total
others = (refl, refl, refl)

answered :
    (is_total (forbidden "Insufficient permissions to manage invoices") ≡ false)
    × (is_total (not_found "Vendor not found") ≡ false)
    × (is_total (forbidden "You can only create invoices for your own vendor account") ≡ false)
    × (is_total (not_found "Purchase order not found") ≡ false)
    × (is_total (bad_request "Invoice vendor must match the purchase order vendor") ≡ false)
    × (is_total (bad_request "Invoices can only be created for active purchase orders") ≡ false)
    × (is_total (not_found "Goods receipt not found") ≡ false)
    × (is_total (bad_request "Goods receipt must belong to the referenced purchase order") ≡ false)
    × (is_total (bad_request "Goods receipt must be received before invoicing") ≡ false)
unfolding is_total
answered = (refl, refl, refl, refl, refl, refl, refl, refl, refl)

build-answers_total :
    (lines : List OrderItem) (dtos : List CreateInvoiceItemDto) (f : Failure)
    → build_invoice_items lines dtos ≡ err f
    → is_total f ≡ false
unfolding build_invoice_items
build-answers_total lines [] f h = ground arith
build-answers_total lines (d ∷ ds) f h = elim (Result-cases (build_invoice_items lines ds)) [
  | inl (items, e) ↦ ground (arith, others)
  | inr (g, e) ↦ ground (arith, others, build-answers_total lines ds g e)
]

module _ (env : Surroundings) (caller : Caller) (dto : CreateInvoiceDto) (db : Database) where
  create_failed :
      (f : Failure) (after : Database) → create env caller dto db ≡ (err f, after) → after ≡ db
  unfolding create create_for create_with_items assert_amounts_valid assert_vendor_access
  create_failed f after h = ground arith

  -- the one row that a creation adds
  abbrev pub IsAdded : Invoice → Database → Type 0
  IsAdded i after =
      (after ≡ record db { invoices = insert env.new_id i db.invoices })
      × (lookup env.new_id db.invoices ≡ none)
      × (i.organisation_id ≡ caller.organisation_id)
      × (i.status ≡ InvoiceStatus.draft)

  create_reaches :
      (order : PurchaseOrder) (i : Invoice) (after : Database)
      → find_order dto.purchase_order_id caller.organisation_id db ≡ some order
      → create env caller dto db ≡ (ok i, after)
      → create_for env caller dto order db ≡ (ok i, after)
  unfolding create assert_vendor_access
  create_reaches order i after eo h = ground arith

  create_no_order :
      (i : Invoice) (after : Database)
      → find_order dto.purchase_order_id caller.organisation_id db ≡ none
      → create env caller dto db ≢ (ok i, after)
  unfolding create assert_vendor_access
  create_no_order i after n h = ground arith

  create_for_made :
      (order : PurchaseOrder) (i : Invoice) (after : Database)
      → create_for env caller dto order db ≡ (ok i, after)
      → IsAdded i after
  unfolding create_for create_with_items assert_amounts_valid
  create_for_made order i after h = ground arith

  create_made :
      (i : Invoice) (after : Database) → create env caller dto db ≡ (ok i, after) → IsAdded i after
  create_made i after h =
      elim (Option-cases (find_order dto.purchase_order_id caller.organisation_id db)) [
        | inl n ↦ absurd (create_no_order i after n h)
        | inr (order, e) ↦ create_for_made order i after (create_reaches order i after e h)
      ]

  -- What holds of the database, and is kept by a new draft at a free key, holds after `create`.
  pub create_elim :
      (P : Database → Type 0)
      → P db
      → ((i : Invoice) (after : Database) → IsAdded i after → P after)
      → P (create env caller dto db).1
  create_elim P p add = elim (Result-cases (create env caller dto db).0) [
    | inl (i, e) ↦
        add i _
          (create_made i (create env caller dto db).1 (λ j. (e j, (create env caller dto db).1)))
    | inr (f, e) ↦
        rw (create_failed f (create env caller dto db).1 (λ j. (e j, (create env caller dto db).1)))
          p
  ]

  create_for_total :
      (order : PurchaseOrder) → answers_total (create_for env caller dto order db).0 ≡ false
  unfolding create_for create_with_items assert_amounts_valid
  create_for_total order = elim (Result-cases (build_invoice_items order.items dto.items)) [
    | inl (items, e) ↦ rw e (
        ground
          (arith, others, total_valid-computed dto.tax_amount (calculate_items_subtotal items)))
    | inr (f, e) ↦ rw e (build-answers_total order.items dto.items f e)
  ]

  create_no_vendor :
      find_vendor dto.vendor_id caller.organisation_id db ≡ none
      → answers_total (create env caller dto db).0 ≡ false
  unfolding create
  create_no_vendor n = ground (arith, answered)

  module _ (vendor : Vendor)
      (ev : find_vendor dto.vendor_id caller.organisation_id db ≡ some vendor) where
    create_order_missing :
        find_order dto.purchase_order_id caller.organisation_id db ≡ none
        → answers_total (create env caller dto db).0 ≡ false
    unfolding create assert_vendor_access
    create_order_missing n = ground (arith, answered)

    module _ (order : PurchaseOrder)
        (eo : find_order dto.purchase_order_id caller.organisation_id db ≡ some order) where
      create_receipt_missing :
          find_receipt dto.goods_receipt_id caller.organisation_id db ≡ none
          → answers_total (create env caller dto db).0 ≡ false
      unfolding create assert_vendor_access
      create_receipt_missing n = ground (arith, answered)

      create_found :
          (receipt : GoodsReceipt)
          → find_receipt dto.goods_receipt_id caller.organisation_id db ≡ some receipt
          → answers_total (create_for env caller dto order db).0 ≡ false
          → answers_total (create env caller dto db).0 ≡ false
      unfolding create assert_vendor_access
      create_found receipt er made = ground (arith, answered)

  create-answers_total : answers_total (create env caller dto db).0 ≡ false
  create-answers_total = elim (Option-cases (find_vendor dto.vendor_id caller.organisation_id db)) [
    | inl n ↦ create_no_vendor n
    | inr (vendor, ev) ↦
        elim (Option-cases (find_order dto.purchase_order_id caller.organisation_id db)) [
          | inl n ↦ create_order_missing vendor ev n
          | inr (order, eo) ↦
              elim (Option-cases (find_receipt dto.goods_receipt_id caller.organisation_id db)) [
                | inl n ↦ create_receipt_missing vendor ev order eo n
                | inr (receipt, er) ↦
                    create_found vendor ev order eo receipt er (create_for_total order)
              ]
        ]
  ]

  -- Whatever the request is, `create` never answers that the total is not the subtotal plus the tax:
  -- the total that it computes passes its own check.
  pub create_total_valid : (create env caller dto db).0 ≢ err total_message
  create_total_valid h = total_answer _ h create-answers_total
