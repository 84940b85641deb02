-- ===== src/Invoices/Amounts.antt =====
-- The arithmetic of apps/api/src/invoices/invoices.service.ts. The numbers of a request are doubles.
use enterprise_ai_procuremen.Prelude.{ℕ, Bool, List, [], ◌∷◌, map, String, any, ◌==◌, if◌then◌else◌}
use enterprise_ai_procuremen.Results.{
  Result, ok, err, bad_request, throw_unless, Done, ◌>>◌, Failure,
}
use enterprise_ai_procuremen.Decimals.{
  Double, of_nat, of_cents, num_add, num_mul, num_eq, to_fixed2, sum,
}
use enterprise_ai_procuremen.Schema.{Invoice, InvoiceItem, OrderItem}
use enterprise_ai_procuremen.Database.{M}

pub record CreateInvoiceItemDto : Type 0 where
  pub purchase_order_item_id : ℕ
  pub description : String
  pub quantity : ℕ
  pub unit_price : Double

abbrev pub item_totals : List InvoiceItem → List Double
item_totals items = map (λ i. of_cents i.total_price) items

-- `(quantity * price).toFixed(2)`
unfoldable pub line_total : ℕ → Double → ℕ
line_total quantity price = to_fixed2 (num_mul (of_nat quantity) price)

unfoldable pub build_invoice_item : CreateInvoiceItemDto → InvoiceItem
build_invoice_item dto = record {
  purchase_order_item_id = dto.purchase_order_item_id;
  description = dto.description;
  quantity = dto.quantity;
  unit_price = to_fixed2 dto.unit_price;
  total_price = line_total dto.quantity dto.unit_price;
}

-- The `map` throws at the first item that the order does not have.
unfoldable pub build_invoice_items :
    List OrderItem → List CreateInvoiceItemDto → Result (List InvoiceItem)
build_invoice_items po_items [] = ok []
build_invoice_items po_items (dto ∷ dtos) =
    let rest = build_invoice_items po_items dtos in
    if any (λ i. i.id == dto.purchase_order_item_id) po_items
    then elim rest [ ok items ↦ ok (build_invoice_item dto ∷ items) | err e ↦ err e ]
    else err (bad_request "Purchase order item not found on purchase order")

unfoldable pub calculate_items_subtotal : List InvoiceItem → ℕ
calculate_items_subtotal items = to_fixed2 (sum (item_totals items))

abbrev pub subtotal_message : Failure
subtotal_message = bad_request "Invoice subtotal must equal the sum of invoice line items"

abbrev pub total_message : Failure
total_message = bad_request "Invoice total amount must equal subtotal plus tax"

-- the two tests of `assertAmountsValid`
unfoldable pub subtotal_valid : Double → ℕ → Bool
subtotal_valid declared calculated = num_eq (of_cents (to_fixed2 declared)) (of_cents calculated)

unfoldable pub total_valid : Double → ℕ → ℕ → Bool
total_valid tax calculated total =
    num_eq (of_cents total) (of_cents (to_fixed2 (num_add (of_cents calculated) tax)))

unfoldable pub assert_amounts_valid : Double → Double → ℕ → ℕ → M Done
assert_amounts_valid declared tax calculated total = do
  throw_unless (subtotal_valid declared calculated) subtotal_message
  throw_unless (total_valid tax calculated total) total_message

-- the two tests of `assertInvoiceItemsTotal`, which does not round the sum
unfoldable pub items_sum_valid : Invoice → Bool
items_sum_valid i = num_eq (of_cents i.subtotal) (sum (item_totals i.items))

unfoldable pub stored_total_valid : Invoice → Bool
stored_total_valid i =
    num_eq (of_cents i.total_amount)
      (of_cents (to_fixed2 (num_add (sum (item_totals i.items)) (of_cents i.tax_amount))))

unfoldable pub assert_invoice_items_total : Invoice → M Done
assert_invoice_items_total i = do
  throw_unless (items_sum_valid i) subtotal_message
  throw_unless (stored_total_valid i) total_message
