-- ===== src/Invoices/Creation.antt =====
-- What `create` of apps/api/src/invoices/invoices.service.ts has written when it succeeds.
use enterprise_ai_procuremen.Prelude.{
  ℕ, ◌≡◌, refl, ◌⊎◌, inl, inr, true, false, none, some, List, [], ◌∷◌, map, any, arith, ◌==◌,
  ==_iff, Bool-cases,
}
use enterprise_ai_procuremen.Results.{ok, err, Failure, Result-cases}
use enterprise_ai_procuremen.Store.{lookup, insert, any_row}
use enterprise_ai_procuremen.Decimals.{of_nat, of_cents, to_fixed2, num_add, num_mul, num_eq, sum}
use enterprise_ai_procuremen.Schema.{
  admin, finance, user, Invoice, InvoiceItem, InvoiceStatus, OrderItem, PurchaseOrder,
  PurchaseOrderStatus, GoodsReceipt, GoodsReceiptStatus, Vendor,
}
use enterprise_ai_procuremen.Schema.Emails.{same_email}
use enterprise_ai_procuremen.Database.{Database, Caller, Surroundings}
use enterprise_ai_procuremen.Orders.Repository.{find_order, same_number}
use enterprise_ai_procuremen.Receipts.Repository.{find_receipt}
use enterprise_ai_procuremen.Invoices.Repository.{create_with_items}
use enterprise_ai_procuremen.Invoices.Amounts.{
  CreateInvoiceItemDto, calculate_items_subtotal, subtotal_valid, assert_amounts_valid, line_total,
  build_invoice_item, build_invoice_items,
}
use enterprise_ai_procuremen.Invoices.Totals.{line_amounts, item_totals-line_amounts}
use enterprise_ai_procuremen.Invoices.Service.{
  CreateInvoiceDto, create, create_for, assert_vendor_access, find_vendor,
}

-- The order has the line `k`.
abbrev pub HasLine : ℕ → List OrderItem → Type 0
HasLine k [] = ⊥
HasLine k (o ∷ os) = (o.id ≡ k) ⊎ HasLine k os

any-HasLine : (k : ℕ) (os : List OrderItem) → any (λ o. o.id == k) os ≡ true → HasLine k os
any-HasLine k [] h = cc
any-HasLine k (o ∷ os) h = elim (Bool-cases (o.id == k)) [
  | inl same ↦ inl ((==_iff o.id k).0 same)
  | inr other ↦ inr (any-HasLine k os (ground arith))
]

-- The items are those of the request, in order, each for a line of the order, with the price and the
-- product of quantity and price rounded to cents.
abbrev pub AreItemsOf : List OrderItem → List CreateInvoiceItemDto → List InvoiceItem → Type 0
AreItemsOf lines [] [] = Unit
AreItemsOf lines (d ∷ ds) (i ∷ is) =
    HasLine d.purchase_order_item_id lines
    × (i.purchase_order_item_id ≡ d.purchase_order_item_id)
    × (i.description ≡ d.description)
    × (i.quantity ≡ d.quantity)
    × (i.unit_price ≡ to_fixed2 d.unit_price)
    × (i.total_price ≡ to_fixed2 (num_mul (of_nat d.quantity) d.unit_price))
    × AreItemsOf lines ds is
AreItemsOf lines [] (_ ∷ _) = ⊥
AreItemsOf lines (_ ∷ _) [] = ⊥

-- the first item and the others of a successful `buildInvoiceItems`
build_invoice_items-cons :
    (lines : List OrderItem) (d : CreateInvoiceItemDto) (ds : List CreateInvoiceItemDto)
    (items rest : List InvoiceItem)
    → build_invoice_items lines (d ∷ ds) ≡ ok items
    → build_invoice_items lines ds ≡ ok rest
    → (any (λ o. o.id == d.purchase_order_item_id) lines ≡ true)
      × (items ≡ build_invoice_item d ∷ rest)
unfolding build_invoice_items
build_invoice_items-cons lines d ds items rest h r = ground arith

build_invoice_items-refused :
    (lines : List OrderItem) (d : CreateInvoiceItemDto) (ds : List CreateInvoiceItemDto)
    (items : List InvoiceItem) (f : Failure)
    → build_invoice_items lines (d ∷ ds) ≡ ok items
    → build_invoice_items lines ds ≡ err f
    → ⊥
unfolding build_invoice_items
build_invoice_items-refused lines d ds items f h r = ground arith

build_invoice_items-AreItemsOf :
    (lines : List OrderItem) (dtos : List CreateInvoiceItemDto) (items : List InvoiceItem)
    → build_invoice_items lines dtos ≡ ok items
    → AreItemsOf lines dtos items
unfolding build_invoice_items build_invoice_item line_total
build_invoice_items-AreItemsOf lines [] [] h = tt
build_invoice_items-AreItemsOf lines [] (i ∷ is) h = ground arith
build_invoice_items-AreItemsOf lines (d ∷ ds) items h =
    elim (Result-cases (build_invoice_items lines ds)) [
      | inr (f, e) ↦ absurd (build_invoice_items-refused lines d ds items f h e)
      | inl (rest, e) ↦
          let (there, same) = build_invoice_items-cons lines d ds items rest h e in
          rw same (
            any-HasLine d.purchase_order_item_id lines there,
            refl,
            refl,
            refl,
            refl,
            refl,
            build_invoice_items-AreItemsOf lines ds rest e,
          )
    ]

-- What an invoice that `create` made holds for its order.
abbrev pub IsBuilt :
    Surroundings
    → Caller
    → CreateInvoiceDto
    → PurchaseOrder
    → Database
    → Invoice
    → Database
    → Type 0
IsBuilt env caller dto order db i after =
    (after ≡ record db { invoices = insert env.new_id i db.invoices })
    × (lookup env.new_id db.invoices ≡ none)
    × (any_row (λ j. same_number j.invoice_number i.invoice_number) db.invoices ≡ false)
    × (i.status ≡ InvoiceStatus.draft)
    × (i.matching_result ≡ none)
    × (i.organisation_id ≡ caller.organisation_id)
    × (i.vendor_id ≡ dto.vendor_id)
    × (i.purchase_order_id ≡ dto.purchase_order_id)
    × (i.goods_receipt_id ≡ dto.goods_receipt_id)
    × (i.subtotal ≡ to_fixed2 (sum (map of_cents (line_amounts i.items))))
    × (i.tax_amount ≡ to_fixed2 dto.tax_amount)
    × (i.total_amount ≡ to_fixed2 (num_add dto.tax_amount (of_cents i.subtotal)))
    × (num_eq (of_cents (to_fixed2 dto.subtotal)) (of_cents i.subtotal) ≡ true)

create_for-IsBuilt :
    (env : Surroundings) (caller : Caller) (dto : CreateInvoiceDto) (order : PurchaseOrder)
    (db after : Database) (i : Invoice)
    → create_for env caller dto order db ≡ (ok i, after)
    → IsBuilt env caller dto order db i after
      × (build_invoice_items order.items dto.items ≡ ok i.items)
unfolding create_for create_with_items assert_amounts_valid subtotal_valid calculate_items_subtotal
create_for-IsBuilt env caller dto order db after i h =
    ground (arith, item_totals-line_amounts i.items)

-- the administrator, finance, or a user with the vendor's address
abbrev pub MayInvoice : Caller → Vendor → Type 0
MayInvoice caller vendor =
    (caller.role ≡ admin)
    ⊎ (caller.role ≡ finance)
    ⊎ ((caller.role ≡ user) × (same_email caller.email vendor.email ≡ true))

-- An order that was issued and not cancelled, for the vendor, and a receipt of it that was received
-- and not rejected.
abbrev pub IsInvoiceable : CreateInvoiceDto → PurchaseOrder → GoodsReceipt → Type 0
IsInvoiceable dto order receipt =
    (order.vendor_id ≡ dto.vendor_id)
    × ¬ (order.status ≡ PurchaseOrderStatus.draft)
    × ¬ (order.status ≡ PurchaseOrderStatus.cancelled)
    × (receipt.purchase_order_id ≡ dto.purchase_order_id)
    × ¬ (receipt.status ≡ GoodsReceiptStatus.draft)
    × ¬ (receipt.status ≡ GoodsReceiptStatus.rejected)

create_guarded :
    (env : Surroundings) (caller : Caller) (dto : CreateInvoiceDto) (db after : Database)
    (i : Invoice) (vendor : Vendor) (order : PurchaseOrder) (receipt : GoodsReceipt)
    → find_vendor dto.vendor_id caller.organisation_id db ≡ some vendor
    → find_order dto.purchase_order_id caller.organisation_id db ≡ some order
    → find_receipt dto.goods_receipt_id caller.organisation_id db ≡ some receipt
    → create env caller dto db ≡ (ok i, after)
    → (create_for env caller dto order db ≡ (ok i, after))
      × MayInvoice caller vendor
      × IsInvoiceable dto order receipt
unfolding create assert_vendor_access
create_guarded env caller dto db after i vendor order receipt ev eo er h = ground arith

-- For a vendor, an order and a receipt of the caller's organisation: an invoice is created only by the
-- administrator, finance, or a user with the vendor's address, for an order of the vendor that was
-- issued and not cancelled and a receipt of that order that was received and not rejected. It is one
-- new draft row at a free key with a number that no row had. Its items are those of the request, each
-- for a line of the order, its subtotal is their rounded sum, which the declared subtotal equals, and
-- its total is the subtotal with the tax.
pub invoice_created :
    (env : Surroundings) (caller : Caller) (dto : CreateInvoiceDto) (db after : Database)
    (i : Invoice) (vendor : Vendor) (order : PurchaseOrder) (receipt : GoodsReceipt)
    → find_vendor dto.vendor_id caller.organisation_id db ≡ some vendor
    → find_order dto.purchase_order_id caller.organisation_id db ≡ some order
    → find_receipt dto.goods_receipt_id caller.organisation_id db ≡ some receipt
    → create env caller dto db ≡ (ok i, after)
    → MayInvoice caller vendor
      × IsInvoiceable dto order receipt
      × IsBuilt env caller dto order db i after
      × AreItemsOf order.items dto.items i.items
invoice_created env caller dto db after i vendor order receipt ev eo er h =
    let (made, may, invoiceable) =
      create_guarded env caller dto db after i vendor order receipt ev eo er h in
    let (built, items) = create_for-IsBuilt env caller dto order db after i made in
    (may, invoiceable, built, build_invoice_items-AreItemsOf order.items dto.items i.items items)
