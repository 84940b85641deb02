-- ===== src/Schema.antt =====
-- apps/api/prisma/schema.prisma: the enumerations and the rows that the modelled services read and
-- write. Identifiers and dates are numbers, since they are only compared. A `Decimal(14, 2)` column
-- is a number of cents. A row does not repeat its primary key, which is its key in the table.
pub mod Emails
use enterprise_ai_procuremen.Prelude.{ℕ, Option, List, String}
use enterprise_ai_procuremen.Results.{Enum}

pub data Role : Type 0 where
  user department_head procurement_manager finance admin : Role

instance abbrev pub role_enum : Enum Role
role_enum = record {
  index = elim [
    | user ↦ 0
    | department_head ↦ 1
    | procurement_manager ↦ 2
    | finance ↦ 3
    | admin ↦ 4
  ];
}

pub data BidStatus : Type 0 where
  draft submitted withdrawn disqualified awarded : BidStatus

instance abbrev pub bid_status_enum : Enum BidStatus
bid_status_enum = record {
  index = elim [ draft ↦ 0 | submitted ↦ 1 | withdrawn ↦ 2 | disqualified ↦ 3 | awarded ↦ 4 ];
}

pub data PurchaseOrderStatus : Type 0 where
  draft issued acknowledged partially_delivered completed cancelled : PurchaseOrderStatus

instance abbrev pub order_status_enum : Enum PurchaseOrderStatus
order_status_enum = record {
  index = elim [
    | draft ↦ 0
    | issued ↦ 1
    | acknowledged ↦ 2
    | partially_delivered ↦ 3
    | completed ↦ 4
    | cancelled ↦ 5
  ];
}

pub data GoodsReceiptStatus : Type 0 where
  draft received partially_received rejected completed : GoodsReceiptStatus

instance abbrev pub receipt_status_enum : Enum GoodsReceiptStatus
receipt_status_enum = record {
  index = elim [ draft ↦ 0 | received ↦ 1 | partially_received ↦ 2 | rejected ↦ 3 | completed ↦ 4 ];
}

pub data InvoiceStatus : Type 0 where
  draft submitted matched approved rejected paid : InvoiceStatus

instance abbrev pub invoice_status_enum : Enum InvoiceStatus
invoice_status_enum = record {
  index = elim [ draft ↦ 0 | submitted ↦ 1 | matched ↦ 2 | approved ↦ 3 | rejected ↦ 4 | paid ↦ 5 ];
}

pub data MatchStatus : Type 0 where
  matched price_mismatch quantity_mismatch missing_grn missing_po failed : MatchStatus

instance abbrev pub match_status_enum : Enum MatchStatus
match_status_enum = record {
  index = elim [
    | matched ↦ 0
    | price_mismatch ↦ 1
    | quantity_mismatch ↦ 2
    | missing_grn ↦ 3
    | missing_po ↦ 4
    | failed ↦ 5
  ];
}

-- `PO-2026-000001` and the like: the prefix belongs to the table, and `padStart` keeps the sequence
-- number apart from every other.
pub record DocumentNumber : Type 0 where
  pub year : ℕ
  pub sequence : ℕ

pub record Vendor : Type 0 where
  pub organisation_id : ℕ
  pub name : String
  pub email : String

pub record User : Type 0 where
  pub organisation_id : ℕ
  pub email : String
  pub role : Role

pub record BidItem : Type 0 where
  pub description : String
  pub quantity : ℕ
  pub unit_price : ℕ
  pub total_price : ℕ

pub record Bid : Type 0 where
  pub vendor_id : ℕ
  pub status : BidStatus
  pub currency : String
  pub payment_terms : Option String
  pub items : List BidItem

-- `organisation_id` is that of the procurement request.
pub record Award : Type 0 where
  pub organisation_id : ℕ
  pub procurement_request_id : ℕ
  pub bid : Bid

pub record OrderItem : Type 0 where
  pub id : ℕ
  pub description : String
  pub quantity : ℕ
  pub unit_price : ℕ
  pub total_price : ℕ

pub record PurchaseOrder : Type 0 where
  pub po_number : DocumentNumber
  pub organisation_id : ℕ
  pub vendor_id : ℕ
  pub award_id : ℕ
  pub procurement_request_id : ℕ
  pub issued_by_id : ℕ
  pub issue_date : Option ℕ
  pub expected_delivery_date : ℕ
  pub total_amount : ℕ
  pub currency : String
  pub payment_terms : Option String
  pub delivery_address : Option String
  pub notes : Option String
  pub status : PurchaseOrderStatus
  pub items : List OrderItem

pub record ReceiptItem : Type 0 where
  pub id : ℕ
  pub purchase_order_item_id : ℕ
  pub quantity_ordered : ℕ
  pub quantity_received : ℕ
  pub quantity_rejected : ℕ
  pub remarks : Option String

pub record GoodsReceipt : Type 0 where
  pub receipt_number : DocumentNumber
  pub purchase_order_id : ℕ
  pub organisation_id : ℕ
  pub received_by_id : ℕ
  pub receipt_date : ℕ
  pub warehouse : Option String
  pub notes : Option String
  pub status : GoodsReceiptStatus
  pub items : List ReceiptItem

pub record InvoiceItem : Type 0 where
  pub purchase_order_item_id : ℕ
  pub description : String
  pub quantity : ℕ
  pub unit_price : ℕ
  pub total_price : ℕ

-- An entry of the `discrepancies` column: the `field` member, and the order line if it has one.
pub data Discrepancy : Type 0 where
  order_missing receipt_missing subtotal_differs receipt_value_differs : Discrepancy
  order_item_missing receipt_item_missing unit_price_differs : ℕ → Discrepancy
  quantity_differs line_total_differs : ℕ → Discrepancy

pub record MatchingResult : Type 0 where
  pub purchase_order_id : ℕ
  pub goods_receipt_id : ℕ
  pub match_status : MatchStatus
  pub matched_by_id : ℕ
  pub discrepancies : Option (List Discrepancy)

pub record Invoice : Type 0 where
  pub invoice_number : DocumentNumber
  pub vendor_id : ℕ
  pub purchase_order_id : ℕ
  pub goods_receipt_id : ℕ
  pub organisation_id : ℕ
  pub invoice_date : ℕ
  pub due_date : ℕ
  pub subtotal : ℕ
  pub tax_amount : ℕ
  pub total_amount : ℕ
  pub currency : String
  pub payment_terms : Option String
  pub status : InvoiceStatus
  pub notes : Option String
  pub items : List InvoiceItem
  pub matching_result : Option MatchingResult
