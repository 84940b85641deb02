-- ===== src/Invoices/Agreement.antt =====
-- What three-way matching accepts.
use enterprise_ai_procuremen.Prelude.{
  ℕ, ◌≡◌, ◌≢◌, ◌↔◌, refl, Bool, true, false, none, some, List, [], ◌∷◌, ◌++◌, arith, ◌==◌, ==_iff,
  All, Option-cases, inl, inr,
}
use enterprise_ai_procuremen.Store.{lookup, lookup-insert_self}
use enterprise_ai_procuremen.Decimals.{of_nat, of_cents, num_eq}
use enterprise_ai_procuremen.Schema.{
  Discrepancy, GoodsReceipt, Invoice, InvoiceItem, InvoiceStatus, MatchStatus, PurchaseOrder,
  OrderItem, ReceiptItem,
}
use enterprise_ai_procuremen.Database.{Database, Caller}
use enterprise_ai_procuremen.Orders.Repository.{find_order}
use enterprise_ai_procuremen.Receipts.Repository.{find_receipt}
use enterprise_ai_procuremen.Invoices.Amounts.{line_total}
use enterprise_ai_procuremen.Invoices.Repository.{
  find_invoice, upsert_matching_result, set_matched_status,
}
use enterprise_ai_procuremen.Invoices.Matching.{
  Findings, order_line, receipt_line, match_line, match_item, match_items, received_value,
  find_discrepancies, resolve_match_status, run_three_way_match, unless, price_mismatch,
  quantity_mismatch,
}
use enterprise_ai_procuremen.Invoices.Service.{match, invoice_approve_roles}

-- The invoice line, the order line and the receipt line name the same price and quantity, and the
-- line total is their product.
abbrev pub LineAgrees : InvoiceItem → OrderItem → ReceiptItem → Type 0
LineAgrees item po_item grn_item =
    (num_eq (of_cents po_item.unit_price) (of_cents item.unit_price) ≡ true)
    × (item.quantity ≡ grn_item.quantity_received)
    × (num_eq (of_cents item.total_price)
          (of_cents (line_total item.quantity (of_cents po_item.unit_price)))
        ≡ true)

-- The line stands on the order and on the receipt, and the three agree.
abbrev pub Agrees : PurchaseOrder → GoodsReceipt → InvoiceItem → Type 0
Agrees order receipt item = elim (order_line order item.purchase_order_item_id) [
  | none ↦ ⊥
  | some po_item ↦ elim (receipt_line receipt item.purchase_order_item_id) [
    | none ↦ ⊥
    | some grn_item ↦ LineAgrees item po_item grn_item
  ]
]

-- All lines agree, and the subtotal is the order's total and the value of the received goods.
abbrev pub Agreement : Invoice → PurchaseOrder → GoodsReceipt → Type 0
Agreement invoice order receipt =
    All (Agrees order receipt) invoice.items
    × (num_eq (of_cents invoice.subtotal) (of_cents order.total_amount) ≡ true)
    × (num_eq (of_cents invoice.subtotal) (received_value order receipt.items (of_nat 0)) ≡ true)

append-ne-nil {ℓ} : {A : Type ℓ} (xs : List A) (x : A) → xs ++ (x ∷ []) ≢ []
append-ne-nil [] x e = cc
append-ne-nil (y ∷ xs) x e = cc

-- A test that passes leaves the list alone, and one that fails adds to it.
unless_iff :
    (b : Bool) (change : Findings → Findings) (f : Findings)
    → (change f).discrepancies ≢ []
    → ((unless b change f).discrepancies ≡ []) ↔ ((f.discrepancies ≡ []) × (b ≡ true))
unless_iff true change f h = (λ e. (e, refl), λ e. e.0)
unless_iff false change f h = (λ e. absurd (h e), λ e. cc)

match_line_iff :
    (item : InvoiceItem) (p : OrderItem) (g : ReceiptItem) (f : Findings)
    → ((match_line item p g f).discrepancies ≡ []) ↔ ((f.discrepancies ≡ []) × LineAgrees item p g)
unfolding match_line
match_line_iff item p g f =
    let line = item.purchase_order_item_id in
    let b1 = num_eq (of_cents p.unit_price) (of_cents item.unit_price) in
    let b2 = item.quantity == g.quantity_received in
    let b3 =
      num_eq (of_cents item.total_price)
        (of_cents (line_total item.quantity (of_cents p.unit_price))) in
    let f1 = unless b1 (price_mismatch (Discrepancy.unit_price_differs line)) f in
    let f2 = unless b2 (quantity_mismatch (Discrepancy.quantity_differs line)) f1 in
    let u1 =
      unless_iff b1 (price_mismatch (Discrepancy.unit_price_differs line)) f (append-ne-nil _ _) in
    let u2 =
      unless_iff b2 (quantity_mismatch (Discrepancy.quantity_differs line)) f1
        (append-ne-nil _ _) in
    let u3 =
      unless_iff b3 (price_mismatch (Discrepancy.line_total_differs line)) f2 (append-ne-nil _ _) in
    (
      λ h.
          let (h2, t3) = u3.0 h in
          let (h1, t2) = u2.0 h2 in let (h0, t1) = u1.0 h1 in (h0, (t1, (==_iff _ _).0 t2, t3)),
      λ h. u3.1 (u2.1 (u1.1 (h.0, h.1.0), (==_iff _ _).1 h.1.1), h.1.2),
    )

module _ (order : PurchaseOrder) (receipt : GoodsReceipt) (item : InvoiceItem) where
  missing_order_line :
      order_line order item.purchase_order_item_id ≡ none → ¬ Agrees order receipt item
  missing_order_line n = rw (n, Agrees) (λ a. a)

  missing_receipt_line :
      receipt_line receipt item.purchase_order_item_id ≡ none → ¬ Agrees order receipt item
  missing_receipt_line n = elim (Option-cases (order_line order item.purchase_order_item_id)) [
    | inl e ↦ rw (e, Agrees) (λ a. a)
    | inr (p, e) ↦ rw (e, n, Agrees) (λ a. a)
  ]

  Agrees-iff :
      {p : OrderItem} {g : ReceiptItem}
      → order_line order item.purchase_order_item_id ≡ some p
      → receipt_line receipt item.purchase_order_item_id ≡ some g
      → Agrees order receipt item ↔ LineAgrees item p g
  Agrees-iff e k = rw (e, k, Agrees) (λ a. a, λ a. a)

match_item_iff :
    (order : PurchaseOrder) (receipt : GoodsReceipt) (item : InvoiceItem) (f : Findings)
    → ((match_item order receipt item f).discrepancies ≡ [])
      ↔ ((f.discrepancies ≡ []) × Agrees order receipt item)
unfolding match_item
match_item_iff order receipt item f =
    elim (Option-cases (order_line order item.purchase_order_item_id)) [
      | inl n ↦
          rw (n, match_item)
            (
              λ h. absurd (append-ne-nil _ _ h),
              λ h. absurd (missing_order_line order receipt item n h.1),
            )
      | inr (p, e) ↦
          rw (e, match_item)
            (elim (Option-cases (receipt_line receipt item.purchase_order_item_id)) [
              | inl n ↦ rw n (
                λ h. absurd (append-ne-nil _ _ h),
                λ h. absurd (missing_receipt_line order receipt item n h.1),
              )
              | inr (g, k) ↦
                  let agrees = Agrees-iff order receipt item e k in
                  let line = match_line_iff item p g f in
                  rw k (λ h. ((line.0 h).0, agrees.1 (line.0 h).1), λ h. line.1 (h.0, agrees.0 h.1))
            ])
    ]

match_items_iff :
    (order : PurchaseOrder) (receipt : GoodsReceipt) (items : List InvoiceItem) (f : Findings)
    → ((match_items order receipt items f).discrepancies ≡ [])
      ↔ ((f.discrepancies ≡ []) × All (Agrees order receipt) items)
unfolding match_items
match_items_iff order receipt [] f = (λ h. (h, tt), λ h. h.0)
match_items_iff order receipt (i ∷ is) f =
    let rest = match_items_iff order receipt is (match_item order receipt i f) in
    let one = match_item_iff order receipt i f in
    (
      λ h. let (g, all) = rest.0 h in let (e, a) = one.0 g in (e, (a, all)),
      λ h. rest.1 (one.1 (h.0, h.1.0), h.1.1),
    )

matched_nil : (f : Findings) → resolve_match_status f ≡ MatchStatus.matched → f.discrepancies ≡ []
unfolding resolve_match_status
matched_nil f h = ground arith

nil_matched : (f : Findings) → f.discrepancies ≡ [] → resolve_match_status f ≡ MatchStatus.matched
unfolding resolve_match_status
nil_matched f h = ground arith

-- Matching finds no discrepancy exactly for an invoice in agreement with its order and receipt.
pub find_discrepancies_iff :
    (invoice : Invoice) (order : PurchaseOrder) (receipt : GoodsReceipt)
    → (resolve_match_status (find_discrepancies invoice order receipt) ≡ MatchStatus.matched)
      ↔ Agreement invoice order receipt
unfolding find_discrepancies
find_discrepancies_iff invoice order receipt =
    let none_yet : Findings = record {
      discrepancies = [];
      has_price_mismatch = false;
      has_quantity_mismatch = false;
    } in
    let f1 = match_items order receipt invoice.items none_yet in
    let b2 = num_eq (of_cents invoice.subtotal) (of_cents order.total_amount) in
    let b3 = num_eq (of_cents invoice.subtotal) (received_value order receipt.items (of_nat 0)) in
    let f2 = unless b2 (price_mismatch Discrepancy.subtotal_differs) f1 in
    let m = match_items_iff order receipt invoice.items none_yet in
    let u2 = unless_iff b2 (price_mismatch Discrepancy.subtotal_differs) f1 (append-ne-nil _ _) in
    let u3 =
      unless_iff b3 (price_mismatch Discrepancy.receipt_value_differs) f2 (append-ne-nil _ _) in
    (
      λ h. let (h2, t3) = u3.0 (matched_nil _ h) in let (h1, t2) = u2.0 h2 in ((m.0 h1).1, t2, t3),
      λ h. nil_matched _ (u3.1 (u2.1 (m.1 (refl, h.0), h.1), h.2)),
    )

-- Three-way matching by a permitted caller, of a submitted invoice whose order and receipt are there:
-- the invoice becomes matched exactly if the three agree.
pub match_iff :
    (caller : Caller) (id : ℕ) (db : Database) (invoice after : Invoice) (order : PurchaseOrder)
    (receipt : GoodsReceipt)
    → invoice_approve_roles caller.role ≡ true
    → lookup id db.invoices ≡ some invoice
    → invoice.organisation_id ≡ caller.organisation_id
    → invoice.status ≡ InvoiceStatus.submitted
    → find_order invoice.purchase_order_id caller.organisation_id db ≡ some order
    → find_receipt invoice.goods_receipt_id caller.organisation_id db ≡ some receipt
    → lookup id (match caller id db).1.invoices ≡ some after
    → (after.status ≡ InvoiceStatus.matched) ↔ Agreement invoice order receipt
unfolding match run_three_way_match upsert_matching_result set_matched_status find_invoice
match_iff caller id db invoice after order receipt role e own st eo er h =
    let iff = find_discrepancies_iff invoice order receipt in
    let link : (after.status ≡ InvoiceStatus.matched)
        ↔ (resolve_match_status (find_discrepancies invoice order receipt) ≡ MatchStatus.matched) =
      grind (arith, lookup-insert_self) in
    (λ g. iff.0 (link.0 g), λ g. link.1 (iff.1 g))
