-- ===== src/Receipts/Tests.antt =====
-- Runs of the receipt requests, and the theorems at concrete inputs.
use enterprise_ai_procuremen.Prelude.{
  ◌≡◌, refl, subst, true, false, none, some, [], ◌∷◌, List, arith,
}
use enterprise_ai_procuremen.Store.{lookup, sum_rows}
use enterprise_ai_procuremen.Schema.{GoodsReceipt, PurchaseOrder, PurchaseOrderStatus}
use enterprise_ai_procuremen.Database.{Database}
use enterprise_ai_procuremen.Samples.{
  administrator, stranger, surroundings, order, issued_order, receipt, full_receipt, with_receipt,
  delivered,
}
use enterprise_ai_procuremen.Orders.Service.{CreatePurchaseOrderDto}
use enterprise_ai_procuremen.Orders.Lifecycle.{cancels}
use enterprise_ai_procuremen.Orders.History.{names, creates}
use enterprise_ai_procuremen.Receipts.Deliveries.{completes}
use enterprise_ai_procuremen.Receipts.OrderHistory.{
  Call, orders, receipts, run, cancelled_order_stays, foreign_calls_keep_order,
}
use enterprise_ai_procuremen.Receipts.Service.{
  ReceiveEntry, receive, get_received, received_map, resolve_receipt_progress_status,
}
use enterprise_ai_procuremen.Receipts.Cumulative.{contribution, received_map-sum}
use enterprise_ai_procuremen.Receipts.Progress.{resolve_context}
use enterprise_ai_procuremen.Receipts.Quantities.{IsValid, IsWithin, receive-IsWithin}

abbrev entries : List ReceiveEntry
entries = (record { goods_receipt_item_id = 11; quantity_received = 4 }) ∷ []

receipt-IsValid : IsValid receipt
receipt-IsValid = record { distinct = (tt, tt); clean = λ h line. ground arith }

sample-IsValid : (r : GoodsReceipt) → lookup 20 with_receipt.goods_receipts ≡ some r → IsValid r
sample-IsValid r e = let same : receipt ≡ r = cc in subst IsValid same receipt-IsValid

within : IsWithin 10 issued_order with_receipt
within line o h = rw (received_map-sum 10 line with_receipt) (omega arith)

receive-IsWithin_example :
    IsWithin 10 issued_order (receive administrator 20 entries with_receipt).1
receive-IsWithin_example =
    receive-IsWithin administrator 20 entries with_receipt 10 issued_order refl sample-IsValid
      within

received_map-sum_example :
    get_received 1 (received_map 10 delivered)
    ≡ sum_rows (contribution 10 1) delivered.goods_receipts
received_map-sum_example = received_map-sum 10 1 delivered

resolve_context_example :
    resolve_receipt_progress_status full_receipt.items true
    ≡ resolve_receipt_progress_status full_receipt.items false
resolve_context_example = resolve_context full_receipt.items

abbrev closed : PurchaseOrder
closed = record order { status = PurchaseOrderStatus.cancelled }

abbrev with_closed : Database
with_closed = record delivered { purchase_orders = (10, closed) ∷ [] }

abbrev order_dto : CreatePurchaseOrderDto
order_dto = record {
  award_id = 3;
  delivery_address = none;
  notes = none;
  expected_delivery_date = 600;
}

abbrev calls : List Call
calls =
    orders (creates surroundings administrator order_dto)
    ∷ orders (names administrator 10 cancels)
    ∷ receipts administrator (completes 20)
    ∷ []

cancelled_order_stays_example : lookup 10 (run calls with_closed).purchase_orders ≡ some closed
cancelled_order_stays_example =
    cancelled_order_stays calls with_closed 10 closed (refl, tt) refl refl

abbrev foreign : List Call
foreign =
    orders (names stranger 10 cancels)
    ∷ orders (creates surroundings stranger order_dto)
    ∷ receipts stranger (completes 20)
    ∷ []

seven-eight : ¬ (issued_order.organisation_id ≡ stranger.organisation_id)
seven-eight e = ground arith

foreign_calls_keep_order_example :
    lookup 10 (run foreign delivered).purchase_orders ≡ some issued_order
foreign_calls_keep_order_example =
    foreign_calls_keep_order foreign delivered 10 issued_order refl
      (seven-eight, (seven-eight, (seven-eight, tt)))
