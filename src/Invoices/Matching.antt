-- ===== src/Invoices/Matching.antt =====
-- `runThreeWayMatch` of apps/api/src/invoices/invoices.service.ts.
use enterprise_ai_procuremen.Prelude.{
  ℕ, Bool, true, false, Option, none, some, List, [], ◌∷◌, ◌++◌, is_empty, find_last, ◌==◌,
  if◌then◌else◌,
}
use enterprise_ai_procuremen.Results.{pure, gets, ◌>>=◌, ◌>>◌, ◌===◌, or_else}
use enterprise_ai_procuremen.Decimals.{Double, of_nat, of_cents, num_add, num_eq}
use enterprise_ai_procuremen.Schema.{
  Invoice, InvoiceItem, MatchStatus, match_status_enum, Discrepancy, PurchaseOrder, OrderItem,
  GoodsReceipt, ReceiptItem,
}
use enterprise_ai_procuremen.Database.{M}
use enterprise_ai_procuremen.Orders.Repository.{find_order}
use enterprise_ai_procuremen.Receipts.Repository.{find_receipt}
use enterprise_ai_procuremen.Invoices.Repository.{
  find_invoice, upsert_matching_result, set_matched_status,
}
use enterprise_ai_procuremen.Invoices.Amounts.{line_total}

-- the three variables that the loop changes
pub record Findings : Type 0 where
  pub discrepancies : List Discrepancy
  pub has_price_mismatch : Bool
  pub has_quantity_mismatch : Bool

abbrev pub push : Findings → Discrepancy → Findings
push f d = record f { discrepancies = f.discrepancies ++ (d ∷ []) }

abbrev pub price_mismatch : Discrepancy → Findings → Findings
price_mismatch d f = push (record f { has_price_mismatch = true }) d

abbrev pub quantity_mismatch : Discrepancy → Findings → Findings
quantity_mismatch d f = push (record f { has_quantity_mismatch = true }) d

abbrev pub order_line : PurchaseOrder → ℕ → Option OrderItem
order_line order id = find_last (λ i. i.id == id) order.items

abbrev pub receipt_line : GoodsReceipt → ℕ → Option ReceiptItem
receipt_line receipt id = find_last (λ i. i.purchase_order_item_id == id) receipt.items

abbrev pub unless : Bool → (Findings → Findings) → Findings → Findings
unless b change f = if b then f else change f

unfoldable pub match_line : InvoiceItem → OrderItem → ReceiptItem → Findings → Findings
match_line item po_item grn_item f =
    let line = item.purchase_order_item_id in
    let f1 =
      unless (num_eq (of_cents po_item.unit_price) (of_cents item.unit_price))
        (price_mismatch (Discrepancy.unit_price_differs line)) f in
    let f2 =
      unless (item.quantity == grn_item.quantity_received)
        (quantity_mismatch (Discrepancy.quantity_differs line)) f1 in
    unless
      (num_eq (of_cents item.total_price)
        (of_cents (line_total item.quantity (of_cents po_item.unit_price))))
      (price_mismatch (Discrepancy.line_total_differs line)) f2

-- the body of the loop over the invoice items
unfoldable pub match_item : PurchaseOrder → GoodsReceipt → InvoiceItem → Findings → Findings
unfolding match_line
match_item order receipt item f = elim (order_line order item.purchase_order_item_id) [
  | none ↦ push f (Discrepancy.order_item_missing item.purchase_order_item_id)
  | some po_item ↦ elim (receipt_line receipt item.purchase_order_item_id) [
    | none ↦ quantity_mismatch (Discrepancy.receipt_item_missing item.purchase_order_item_id) f
    | some grn_item ↦ match_line item po_item grn_item f
  ]
]

unfoldable pub match_items : PurchaseOrder → GoodsReceipt → List InvoiceItem → Findings → Findings
match_items order receipt [] f = f
match_items order receipt (i ∷ is) f = match_items order receipt is (match_item order receipt i f)

-- `goodsReceipt.items.reduce(…, 0)`
unfoldable pub received_value : PurchaseOrder → List ReceiptItem → Double → Double
received_value order [] acc = acc
received_value order (i ∷ is) acc =
    received_value order is (elim (order_line order i.purchase_order_item_id) [
      | none ↦ acc
      | some po_item ↦
          num_add acc (of_cents (line_total i.quantity_received (of_cents po_item.unit_price)))
    ])

unfoldable pub find_discrepancies : Invoice → PurchaseOrder → GoodsReceipt → Findings
unfolding match_items received_value
find_discrepancies invoice order receipt =
    let none_yet : Findings = record {
      discrepancies = [];
      has_price_mismatch = false;
      has_quantity_mismatch = false;
    } in
    let f1 = match_items order receipt invoice.items none_yet in
    let f2 =
      unless (num_eq (of_cents invoice.subtotal) (of_cents order.total_amount))
        (price_mismatch Discrepancy.subtotal_differs) f1 in
    unless (num_eq (of_cents invoice.subtotal) (received_value order receipt.items (of_nat 0)))
      (price_mismatch Discrepancy.receipt_value_differs) f2

unfoldable pub resolve_match_status : Findings → MatchStatus
resolve_match_status f =
    if is_empty f.discrepancies
    then MatchStatus.matched
    else if f.has_quantity_mismatch
    then MatchStatus.quantity_mismatch
    else if f.has_price_mismatch
    then MatchStatus.price_mismatch
    else MatchStatus.failed

-- `discrepancies.length ? discrepancies : null`
abbrev pub or_null : List Discrepancy → Option (List Discrepancy)
or_null [] = none
or_null (d ∷ ds) = some (d ∷ ds)

-- The answer is the `invoice` member of the response.
unfoldable pub run_three_way_match : ℕ → Invoice → ℕ → ℕ → M Invoice
run_three_way_match id invoice org user_id db = elim (find_order invoice.purchase_order_id org db) [
  | none ↦
      (upsert_matching_result id invoice.purchase_order_id invoice.goods_receipt_id user_id
            MatchStatus.missing_po (some (Discrepancy.order_missing ∷ []))
          >>= λ _. pure invoice)
        db
  | some order ↦ elim (find_receipt invoice.goods_receipt_id org db) [
    | none ↦
        (upsert_matching_result id invoice.purchase_order_id invoice.goods_receipt_id user_id
              MatchStatus.missing_grn (some (Discrepancy.receipt_missing ∷ []))
            >>= λ _. pure invoice)
          db
    | some receipt ↦
        let f = find_discrepancies invoice order receipt in
        let status = resolve_match_status f in
        let recorded =
          upsert_matching_result id invoice.purchase_order_id invoice.goods_receipt_id user_id
            status (or_null f.discrepancies) in
        if status === MatchStatus.matched
        then (recorded >> set_matched_status id) db
        else (recorded >>= λ _. gets λ db'. or_else (find_invoice id org db') invoice) db
  ]
]
