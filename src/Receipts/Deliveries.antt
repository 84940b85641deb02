-- ===== src/Receipts/Deliveries.antt =====
-- The requests of apps/api/src/goods-receipts/goods-receipts.service.ts and what they do to purchase
-- orders: `syncPurchaseOrderDeliveryStatus` writes the status of the order that a receipt names.
use enterprise_ai_procuremen.Prelude.{ℕ, ◌≡◌, ◌⊎◌, inl, inr, some, Option-cases, List, arith}
use enterprise_ai_procuremen.Store.{Table, lookup, lookup-insert_ne, IsKeyed, insert-IsKeyed}
use enterprise_ai_procuremen.Schema.{PurchaseOrder, PurchaseOrderStatus, GoodsReceipt}
use enterprise_ai_procuremen.Database.{Database, Caller, Surroundings}
use enterprise_ai_procuremen.Orders.Repository.{find_order}
use enterprise_ai_procuremen.Receipts.Repository.{create_with_items}
use enterprise_ai_procuremen.Receipts.Service.{
  CreateGoodsReceiptDto, UpdateGoodsReceiptDto, ReceiveEntry, RejectEntry, create, update, delete,
  receive, reject, complete, sync_delivery_status,
}
use enterprise_ai_procuremen.Receipts.StatusWrites.{
  Writes, completed, complete_absent, receive_absent, reject_absent, complete_writes,
  receive-Writes, reject-Writes,
}

-- the requests that change receipts, with their data
pub data Request : Type 0 where
  creates : Surroundings → CreateGoodsReceiptDto → Request
  updates : ℕ → UpdateGoodsReceiptDto → Request
  deletes completes : ℕ → Request
  receives : ℕ → List ReceiveEntry → Request
  rejects : ℕ → List RejectEntry → Request

-- the database after a request, whether it succeeds or not
unfoldable pub perform : Caller → Request → Database → Database
perform caller (creates env dto) db = (create env caller dto db).1
perform caller (updates id dto) db = (update caller id dto db).1
perform caller (deletes id) db = (delete caller id db).1
perform caller (completes id) db = (complete caller id db).1
perform caller (receives id entries) db = (receive caller id entries db).1
perform caller (rejects id entries) db = (reject caller id entries db).1

-- What holds of the orders, and is kept by the synchronisation, holds after a request.
module _ (caller : Caller) (P : Table PurchaseOrder → Type 0)
    (sync_keeps : (order_id : ℕ) (db : Database)
      → P db.purchase_orders
      → P (sync_delivery_status order_id caller.organisation_id db).1.purchase_orders) where
  abbrev Holds : Database → Type 0
  Holds db = P db.purchase_orders

  module _ (db : Database) (e : Holds db) where
    create_keeps :
        (env : Surroundings) (dto : CreateGoodsReceiptDto) → Holds (create env caller dto db).1
    unfolding create create_with_items
    create_keeps env dto = ground arith

    update_keeps : (id : ℕ) (dto : UpdateGoodsReceiptDto) → Holds (update caller id dto db).1
    unfolding update
    update_keeps id dto = ground arith

    delete_keeps : (id : ℕ) → Holds (delete caller id db).1
    unfolding delete
    delete_keeps id = ground arith

    complete_keeps : (id : ℕ) → Holds (complete caller id db).1
    complete_keeps id = elim (Option-cases (lookup id db.goods_receipts)) [
      | inl n ↦ rw (complete_absent caller id db n) e
      | inr (r, f) ↦ elim (complete_writes caller id db r f) [
        | inl same ↦ rw same e
        | inr wrote ↦ rw wrote (sync_keeps r.purchase_order_id (completed caller id db r) e)
      ]
    ]

    receive_keeps : (id : ℕ) (entries : List ReceiveEntry) → Holds (receive caller id entries db).1
    receive_keeps id entries = elim (Option-cases (lookup id db.goods_receipts)) [
      | inl n ↦ rw (receive_absent caller id db n entries) e
      | inr (r, f) ↦ written r (receive-Writes caller id db r f entries)
    ]
      where
        written :
            (r : GoodsReceipt)
            → Writes caller db r (receive caller id entries db).1
            → Holds (receive caller id entries db).1
        written r (inl same) = rw same e
        written r (inr (after, kept, inl wrote)) = rw (wrote, kept) e
        written r (inr (after, kept, inr wrote)) =
            rw wrote (sync_keeps r.purchase_order_id after (rw kept e))

    reject_keeps : (id : ℕ) (entries : List RejectEntry) → Holds (reject caller id entries db).1
    reject_keeps id entries = elim (Option-cases (lookup id db.goods_receipts)) [
      | inl n ↦ rw (reject_absent caller id db n entries) e
      | inr (r, f) ↦ written r (reject-Writes caller id db r f entries)
    ]
      where
        written :
            (r : GoodsReceipt)
            → Writes caller db r (reject caller id entries db).1
            → Holds (reject caller id entries db).1
        written r (inl same) = rw same e
        written r (inr (after, kept, inl wrote)) = rw (wrote, kept) e
        written r (inr (after, kept, inr wrote)) =
            rw wrote (sync_keeps r.purchase_order_id after (rw kept e))

  perform_elim : (r : Request) (db : Database) → Holds db → Holds (perform caller r db)
  unfolding perform
  perform_elim (creates env dto) db e = create_keeps db e env dto
  perform_elim (updates id dto) db e = update_keeps db e id dto
  perform_elim (deletes id) db e = delete_keeps db e id
  perform_elim (completes id) db e = complete_keeps db e id
  perform_elim (receives id entries) db e = receive_keeps db e id entries
  perform_elim (rejects id entries) db e = reject_keeps db e id entries

-- The order is cancelled, or of another organisation.
abbrev pub IsClosedTo : Caller → PurchaseOrder → Type 0
IsClosedTo caller o =
    (o.status ≡ PurchaseOrderStatus.cancelled) ⊎ ¬ (o.organisation_id ≡ caller.organisation_id)

sync_frame :
    (caller : Caller) (k : ℕ) (o : PurchaseOrder) (order_id : ℕ) (db : Database)
    → IsClosedTo caller o
    → lookup k db.purchase_orders ≡ some o
    → lookup k (sync_delivery_status order_id caller.organisation_id db).1.purchase_orders ≡ some o
unfolding sync_delivery_status find_order
sync_frame caller k o order_id db h e = grind (arith, lookup-insert_ne)

sync-IsKeyed :
    (order_id org : ℕ) (db : Database)
    → IsKeyed db.purchase_orders
    → IsKeyed (sync_delivery_status order_id org db).1.purchase_orders
unfolding sync_delivery_status
sync-IsKeyed order_id org db h = grind (arith, insert-IsKeyed)

-- A request to the receipt service leaves an order that is cancelled or of another organisation.
pub perform_keeps :
    (caller : Caller) (k : ℕ) (o : PurchaseOrder) (r : Request) (db : Database)
    → IsClosedTo caller o
    → lookup k db.purchase_orders ≡ some o
    → lookup k (perform caller r db).purchase_orders ≡ some o
perform_keeps caller k o r db h e =
    perform_elim caller (λ t. lookup k t ≡ some o)
      (λ order_id mid f. sync_frame caller k o order_id mid h f) r db e

pub perform_orders-IsKeyed :
    (caller : Caller) (r : Request) (db : Database)
    → IsKeyed db.purchase_orders
    → IsKeyed (perform caller r db).purchase_orders
perform_orders-IsKeyed caller r db h =
    perform_elim caller IsKeyed
      (λ order_id mid f. sync-IsKeyed order_id caller.organisation_id mid f) r db h
