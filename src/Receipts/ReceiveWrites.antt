-- ===== src/Receipts/ReceiveWrites.antt =====
-- The one row that `receive` writes.
use enterprise_ai_procuremen.Prelude.{
  ℕ, ◌≡◌, false, none, some, List, arith, Option-cases, inl, inr, ◌⊎◌,
}
use enterprise_ai_procuremen.Results.{Result, ok, err, Failure, Result-cases}
use enterprise_ai_procuremen.Store.{Table, lookup, insert}
use enterprise_ai_procuremen.Schema.{PurchaseOrder, GoodsReceipt, ReceiptItem}
use enterprise_ai_procuremen.Database.{Database, Caller}
use enterprise_ai_procuremen.Orders.Repository.{find_order}
use enterprise_ai_procuremen.Receipts.Repository.{
  ReceivedUpdate, update_received, receive_items, find_receipt,
}
use enterprise_ai_procuremen.Receipts.Service.{
  ReceiveEntry, check_received, collect, received_map, receive, sync_delivery_status, with_received,
  resolve_receipt_progress_status,
}

sync_receipts :
    (order_id org : ℕ) (db : Database)
    → (sync_delivery_status order_id org db).1.goods_receipts ≡ db.goods_receipts
unfolding sync_delivery_status
sync_receipts order_id org db = ground arith

module _ (caller : Caller) (id : ℕ) (entries : List ReceiveEntry) (db : Database) where
  -- the receipt that `receive` writes
  abbrev pub written : GoodsReceipt → List ReceivedUpdate → List ReceiptItem → GoodsReceipt
  written r us items = record r {
    items = items;
    status = resolve_receipt_progress_status (with_received us r.items) false;
  }

  abbrev pub checked : GoodsReceipt → PurchaseOrder → Result (List ReceivedUpdate)
  checked r order = collect (check_received order r (received_map r.purchase_order_id db)) entries

  abbrev pub table_after : Table GoodsReceipt
  table_after = (receive caller id entries db).1.goods_receipts

  receive_writes :
      (r : GoodsReceipt) (order : PurchaseOrder) (us : List ReceivedUpdate)
      (items : List ReceiptItem)
      → lookup id db.goods_receipts ≡ some r
      → find_order r.purchase_order_id caller.organisation_id db ≡ some order
      → collect (check_received order r (received_map r.purchase_order_id db)) entries ≡ ok us
      → update_received us r.items ≡ some items
      → (table_after ≡ db.goods_receipts)
        ⊎ (table_after ≡ insert id (written r us items) db.goods_receipts)
  unfolding receive receive_items find_receipt
  receive_writes r order us items e f g h = ground (
    arith,
    sync_receipts r.purchase_order_id caller.organisation_id
        (record db { goods_receipts = insert id (written r us items) db.goods_receipts }),
  )

  no_receipt : lookup id db.goods_receipts ≡ none → table_after ≡ db.goods_receipts
  unfolding receive find_receipt
  no_receipt n = ground arith

  module _ (r : GoodsReceipt) (e : lookup id db.goods_receipts ≡ some r) where
    no_order :
        find_order r.purchase_order_id caller.organisation_id db ≡ none
        → table_after ≡ db.goods_receipts
    unfolding receive find_receipt
    no_order n = ground arith

    module _ (order : PurchaseOrder)
        (f : find_order r.purchase_order_id caller.organisation_id db ≡ some order) where
      not_checked : (bad : Failure) → checked r order ≡ err bad → table_after ≡ db.goods_receipts
      unfolding receive find_receipt
      not_checked bad n = ground arith

      no_items :
          (us : List ReceivedUpdate)
          → checked r order ≡ ok us
          → update_received us r.items ≡ none
          → table_after ≡ db.goods_receipts
      unfolding receive receive_items find_receipt
      no_items us g n = ground arith

  -- Any property of the table that the write keeps holds after `receive`.
  pub receive_cases :
      (P : Table GoodsReceipt → Type 0)
      → P db.goods_receipts
      → ((r : GoodsReceipt) (order : PurchaseOrder) (us : List ReceivedUpdate)
            (items : List ReceiptItem)
          → lookup id db.goods_receipts ≡ some r
          → find_order r.purchase_order_id caller.organisation_id db ≡ some order
          → checked r order ≡ ok us
          → update_received us r.items ≡ some items
          → P (insert id (written r us items) db.goods_receipts))
      → P table_after
  receive_cases P same write = elim (Option-cases (lookup id db.goods_receipts)) [
    | inl n ↦ rw (no_receipt n) same
    | inr (r, e) ↦ elim (Option-cases (find_order r.purchase_order_id caller.organisation_id db)) [
      | inl n ↦ rw (no_order r e n) same
      | inr (order, f) ↦ elim (Result-cases (checked r order)) [
        | inr (bad, n) ↦ rw (not_checked r e order f bad n) same
        | inl (us, g) ↦ elim (Option-cases (update_received us r.items)) [
          | inl n ↦ rw (no_items r e order f us g n) same
          | inr (items, h) ↦ elim (receive_writes r order us items e f g h) [
            | inl k ↦ rw k same
            | inr k ↦ rw k (write r order us items e f g h)
          ]
        ]
      ]
    ]
  ]
