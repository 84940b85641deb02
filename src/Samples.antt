-- ===== src/Samples.antt =====
-- Rows that the tests run on.
use enterprise_ai_procuremen.Prelude.{none, [], ◌∷◌}
use enterprise_ai_procuremen.Schema.{
  Award, BidStatus, GoodsReceipt, GoodsReceiptStatus, Invoice, InvoiceItem, InvoiceStatus,
  OrderItem, PurchaseOrder, PurchaseOrderStatus, ReceiptItem, Vendor, admin,
}
use enterprise_ai_procuremen.Database.{Database, Caller, Surroundings}

abbrev pub vendor : Vendor
vendor = record { organisation_id = 7; name = "Acme"; email = "Sales@acme.test" }

abbrev pub administrator : Caller
administrator = record {
  organisation_id = 7;
  user_id = 70;
  email = "admin@acme.test";
  role = admin;
}

abbrev pub stranger : Caller
stranger = record { organisation_id = 8; user_id = 80; email = "admin@other.test"; role = admin }

abbrev pub surroundings : Surroundings
surroundings = record { new_id = 99; new_item_id = λ n. n; now = 500; year = 2026 }

abbrev pub order_item : OrderItem
order_item = record {
  id = 1;
  description = "Chair";
  quantity = 5;
  unit_price = 1000;
  total_price = 5000;
}

abbrev pub order : PurchaseOrder
order = record {
  po_number = record { year = 2026; sequence = 1 };
  organisation_id = 7;
  vendor_id = 2;
  award_id = 3;
  procurement_request_id = 4;
  issued_by_id = 70;
  issue_date = none;
  expected_delivery_date = 600;
  total_amount = 5000;
  currency = "USD";
  payment_terms = none;
  delivery_address = none;
  notes = none;
  status = PurchaseOrderStatus.draft;
  items = order_item ∷ [];
}

abbrev pub issued_order : PurchaseOrder
issued_order = record order { status = PurchaseOrderStatus.issued }

abbrev pub receipt_item : ReceiptItem
receipt_item = record {
  id = 11;
  purchase_order_item_id = 1;
  quantity_ordered = 5;
  quantity_received = 0;
  quantity_rejected = 0;
  remarks = none;
}

abbrev pub receipt : GoodsReceipt
receipt = record {
  receipt_number = record { year = 2026; sequence = 1 };
  purchase_order_id = 10;
  organisation_id = 7;
  received_by_id = 70;
  receipt_date = 550;
  warehouse = none;
  notes = none;
  status = GoodsReceiptStatus.draft;
  items = receipt_item ∷ [];
}

abbrev pub full_receipt : GoodsReceipt
full_receipt = record receipt {
  status = GoodsReceiptStatus.received;
  items = (record receipt_item { quantity_received = 5 }) ∷ [];
}

abbrev pub invoice_item : InvoiceItem
invoice_item = record {
  purchase_order_item_id = 1;
  description = "Chair";
  quantity = 5;
  unit_price = 1000;
  total_price = 5000;
}

abbrev pub invoice : Invoice
invoice = record {
  invoice_number = record { year = 2026; sequence = 1 };
  vendor_id = 2;
  purchase_order_id = 10;
  goods_receipt_id = 20;
  organisation_id = 7;
  invoice_date = 560;
  due_date = 590;
  subtotal = 5000;
  tax_amount = 500;
  total_amount = 5500;
  currency = "USD";
  payment_terms = none;
  status = InvoiceStatus.draft;
  notes = none;
  items = invoice_item ∷ [];
  matching_result = none;
}

abbrev pub submitted_invoice : Invoice
submitted_invoice = record invoice { status = InvoiceStatus.submitted }

-- an award whose lines cost ten and twenty cents
abbrev pub award : Award
award = record {
  organisation_id = 7;
  procurement_request_id = 4;
  bid = record {
    vendor_id = 2;
    status = BidStatus.awarded;
    currency = "USD";
    payment_terms = none;
    items =
        (record { description = "Pen"; quantity = 1; unit_price = 10; total_price = 10 })
        ∷ (record { description = "Pad"; quantity = 1; unit_price = 20; total_price = 20 })
        ∷ [];
  };
}

abbrev pub empty : Database
empty = record {
  vendors = (2, vendor) ∷ [];
  users = [];
  awards = (3, award) ∷ [];
  purchase_orders = [];
  goods_receipts = [];
  invoices = [];
}

abbrev pub with_draft_order : Database
with_draft_order = record empty { purchase_orders = (10, order) ∷ [] }

abbrev pub with_receipt : Database
with_receipt = record empty {
  purchase_orders = (10, issued_order) ∷ [];
  goods_receipts = (20, receipt) ∷ [];
}

abbrev pub delivered : Database
delivered = record empty {
  purchase_orders = (10, issued_order) ∷ [];
  goods_receipts = (20, full_receipt) ∷ [];
}

abbrev pub with_invoice : Database
with_invoice = record delivered { invoices = (30, invoice) ∷ [] }

abbrev pub with_submitted : Database
with_submitted = record delivered { invoices = (30, submitted_invoice) ∷ [] }
