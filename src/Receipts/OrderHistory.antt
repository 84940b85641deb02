-- ===== src/Receipts/OrderHistory.antt =====
-- Purchase orders over sequences of requests to the two services that write them: that of orders and
-- that of receipts.
use enterprise_ai_procuremen.Prelude.{ℕ, ◌≡◌, inl, inr, some, List, [], ◌∷◌}
use enterprise_ai_procuremen.Store.{lookup, IsKeyed}
use enterprise_ai_procuremen.Schema.{PurchaseOrder, PurchaseOrderStatus}
use enterprise_ai_procuremen.Database.{Database, Caller}
use enterprise_ai_procuremen.Orders.History
use enterprise_ai_procuremen.Receipts.Deliveries.{
  Request, perform, perform_keeps, perform_orders-IsKeyed,
}

-- a request to the order service, or one to the receipt service
pub data Call : Type 0 where
  orders : History.Call → Call
  receipts : Caller → Request → Call

abbrev pub caller_of : Call → Caller
caller_of (orders call) = History.caller_of call
caller_of (receipts caller r) = caller

unfoldable pub run : List Call → Database → Database
run [] db = db
run (orders call ∷ calls) db = run calls (History.answer call db)
run (receipts caller r ∷ calls) db = run calls (perform caller r db)

-- No sequence of requests to the order service and the receipt service, creations included, changes or
-- removes an order that is cancelled.
pub cancelled_order_stays :
    (calls : List Call) (db : Database) (k : ℕ) (o : PurchaseOrder)
    → IsKeyed db.purchase_orders
    → lookup k db.purchase_orders ≡ some o
    → o.status ≡ PurchaseOrderStatus.cancelled
    → lookup k (run calls db).purchase_orders ≡ some o
unfolding run
cancelled_order_stays [] db k o keyed e c = e
cancelled_order_stays (orders call ∷ calls) db k o keyed e c =
    cancelled_order_stays calls (History.answer call db) k o (History.answer-IsKeyed call db keyed)
      (History.answer_terminal call db k o keyed e (inr c)) c
cancelled_order_stays (receipts caller r ∷ calls) db k o keyed e c =
    cancelled_order_stays calls (perform caller r db) k o (perform_orders-IsKeyed caller r db keyed)
      (perform_keeps caller k o r db (inl c) e) c

-- Every caller of the sequence belongs to another organisation than `org`.
abbrev pub IsForeign : ℕ → List Call → Type 0
IsForeign org [] = Unit
IsForeign org (call ∷ calls) = ¬ (org ≡ (caller_of call).organisation_id) × IsForeign org calls

-- No sequence of requests to the order service and the receipt service, creations included, by callers
-- of other organisations changes or removes an order.
pub foreign_calls_keep_order :
    (calls : List Call) (db : Database) (k : ℕ) (o : PurchaseOrder)
    → lookup k db.purchase_orders ≡ some o
    → IsForeign o.organisation_id calls
    → lookup k (run calls db).purchase_orders ≡ some o
unfolding run
foreign_calls_keep_order [] db k o e f = e
foreign_calls_keep_order (orders call ∷ calls) db k o e (ne, f) =
    foreign_calls_keep_order calls (History.answer call db) k o
      (History.answer_foreign call db k o e ne) f
foreign_calls_keep_order (receipts caller r ∷ calls) db k o e (ne, f) =
    foreign_calls_keep_order calls (perform caller r db) k o
      (perform_keeps caller k o r db (inr ne) e) f
