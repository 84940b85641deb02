-- ===== src/Receipts/StatusWrites.antt =====
-- What completing, receiving and rejecting write besides the receipt: the status of its order.
use enterprise_ai_procuremen.Prelude.{
  ℕ, ◌≡◌, ◌⊎◌, inl, inr, none, some, true, false, Option, Option-cases, List, arith,
}
use enterprise_ai_procuremen.Results.{Result, ok, err, Failure, Result-cases}
use enterprise_ai_procuremen.Store.{lookup, insert}
use enterprise_ai_procuremen.Schema.{PurchaseOrder, GoodsReceipt, GoodsReceiptStatus, ReceiptItem}
use enterprise_ai_procuremen.Database.{Database, Caller}
use enterprise_ai_procuremen.Orders.Repository.{find_order}
use enterprise_ai_procuremen.Receipts.Repository.{
  find_receipt, receive_items, reject_items, ReceivedUpdate, RejectedUpdate, write_items,
  update_received, update_rejected,
}
use enterprise_ai_procuremen.Receipts.Service.{
  ReceiveEntry, RejectEntry, receive, reject, complete, sync_delivery_status, collect,
  check_received, check_rejected, received_map, with_received, with_rejected,
  resolve_receipt_progress_status,
}

write_items-orders :
    (id : ℕ) (change : List ReceiptItem → Option (List ReceiptItem)) (status : GoodsReceiptStatus)
    (db : Database)
    → (write_items id change status db).1.purchase_orders ≡ db.purchase_orders
unfolding write_items
write_items-orders id change status db = ground arith

-- Nothing is written, or a receipt, or a receipt and the status of its order.
abbrev pub Writes : Caller → Database → GoodsReceipt → Database → Type 0
Writes caller db r after =
    (after ≡ db)
    ⊎ ((mid : Database) × (mid.purchase_orders ≡ db.purchase_orders)
        × ((after ≡ mid)
            ⊎ (after ≡ (sync_delivery_status r.purchase_order_id caller.organisation_id mid).1)))

module _ (caller : Caller) (id : ℕ) (db : Database) where
  abbrev pub completed : GoodsReceipt → Database
  completed r = record db {
    goods_receipts =
        insert id (record r { status = GoodsReceiptStatus.completed }) db.goods_receipts;
  }

  module _ (n : lookup id db.goods_receipts ≡ none) where
    pub complete_absent : (complete caller id db).1 ≡ db
    unfolding complete find_receipt
    complete_absent = ground arith

    pub receive_absent : (entries : List ReceiveEntry) → (receive caller id entries db).1 ≡ db
    unfolding receive find_receipt
    receive_absent entries = ground arith

    pub reject_absent : (entries : List RejectEntry) → (reject caller id entries db).1 ≡ db
    unfolding reject find_receipt
    reject_absent entries = ground arith

  module _ (r : GoodsReceipt) (f : lookup id db.goods_receipts ≡ some r) where
    pub complete_writes :
        ((complete caller id db).1 ≡ db)
        ⊎ ((complete caller id db).1
            ≡ (sync_delivery_status r.purchase_order_id caller.organisation_id (completed r)).1)
    unfolding complete find_receipt
    complete_writes = ground arith

    module _ (entries : List ReceiveEntry) where
      receive_no_order :
          find_order r.purchase_order_id caller.organisation_id db ≡ none
          → (receive caller id entries db).1 ≡ db
      unfolding receive find_receipt
      receive_no_order n = ground arith

      module _ (order : PurchaseOrder)
          (g : find_order r.purchase_order_id caller.organisation_id db ≡ some order) where
        abbrev checked : Result (List ReceivedUpdate)
        checked = collect (check_received order r (received_map r.purchase_order_id db)) entries

        receive_refused : (e : Failure) → checked ≡ err e → (receive caller id entries db).1 ≡ db
        unfolding receive find_receipt
        receive_refused e c = ground arith

        receive_written :
            (us : List ReceivedUpdate)
            → checked ≡ ok us
            → let mid =
                (receive_items id us
                  (resolve_receipt_progress_status (with_received us r.items) false)
                  db).1 in
              ((receive caller id entries db).1 ≡ db)
              ⊎ ((receive caller id entries db).1 ≡ mid)
              ⊎ ((receive caller id entries db).1
                  ≡ (sync_delivery_status r.purchase_order_id caller.organisation_id mid).1)
        unfolding receive find_receipt
        receive_written us c = ground arith

      pub receive-Writes : Writes caller db r (receive caller id entries db).1
      unfolding receive_items
      receive-Writes =
          elim (Option-cases (find_order r.purchase_order_id caller.organisation_id db)) [
            | inl n ↦ inl (receive_no_order n)
            | inr (order, g) ↦ elim (Result-cases (checked order g)) [
              | inr (e, c) ↦ inl (receive_refused order g e c)
              | inl (us, c) ↦ elim (receive_written order g us c) [
                | inl same ↦ inl same
                | inr wrote ↦ inr (_, write_items-orders id (update_received us) _ db, wrote)
              ]
            ]
          ]

    module _ (entries : List RejectEntry) where
      reject_refused :
          (e : Failure)
          → collect (check_rejected r) entries ≡ err e
          → (reject caller id entries db).1 ≡ db
      unfolding reject find_receipt
      reject_refused e c = ground arith

      reject_written :
          (us : List RejectedUpdate)
          → collect (check_rejected r) entries ≡ ok us
          → let mid =
              (reject_items id us
                (resolve_receipt_progress_status (with_rejected us r.items) true)
                db).1 in
            ((reject caller id entries db).1 ≡ db)
            ⊎ ((reject caller id entries db).1 ≡ mid)
            ⊎ ((reject caller id entries db).1
                ≡ (sync_delivery_status r.purchase_order_id caller.organisation_id mid).1)
      unfolding reject find_receipt
      reject_written us c = ground arith

      pub reject-Writes : Writes caller db r (reject caller id entries db).1
      unfolding reject_items
      reject-Writes = elim (Result-cases (collect (check_rejected r) entries)) [
        | inr (e, c) ↦ inl (reject_refused e c)
        | inl (us, c) ↦ elim (reject_written us c) [
          | inl same ↦ inl same
          | inr wrote ↦ inr (_, write_items-orders id (update_rejected us) _ db, wrote)
        ]
      ]
