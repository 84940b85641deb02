-- ===== src/Receipts/Repository.antt =====
-- apps/api/src/goods-receipts/goods-receipt.repository.ts. An item row is reached through the receipt
-- that holds it.
use enterprise_ai_procuremen.Prelude.{
  ℕ, Bool, true, false, ◌&&◌, Option, none, some, List, [], ◌∷◌, map, ◌++◌, String, ◌==◌,
  if◌then◌else◌,
}
use enterprise_ai_procuremen.Results.{
  ok, err, Done, record_not_found, unique_violation, pure, gets, throw_if, modify, is_some, ◌>>=◌,
  ◌>>◌,
}
use enterprise_ai_procuremen.Store.{Table, lookup, insert, erase, any_row, count_rows}
use enterprise_ai_procuremen.Schema.{
  GoodsReceipt, GoodsReceiptStatus, ReceiptItem, receipt_status_enum,
}
use enterprise_ai_procuremen.Database.{Database, M}
use enterprise_ai_procuremen.Orders.Repository.{of_organisation, same_number}

-- PO_PROGRESS_STATUSES
abbrev pub is_progress : GoodsReceiptStatus → Bool
is_progress GoodsReceiptStatus.received = true
is_progress GoodsReceiptStatus.partially_received = true
is_progress GoodsReceiptStatus.completed = true
is_progress _ = false

unfoldable pub find_receipt : ℕ → ℕ → Database → Option GoodsReceipt
find_receipt id org db = of_organisation (λ r. r.organisation_id) org (lookup id db.goods_receipts)

-- `receiptNumber` is a unique column of the whole table. The primary key that the database
-- client makes is refused if a row has it.
unfoldable pub create_with_items : ℕ → GoodsReceipt → M GoodsReceipt
create_with_items id receipt = do
  used ← gets λ db. is_some (lookup id db.goods_receipts)
  throw_if used unique_violation
  taken ←
      gets
        λ db. any_row (λ r. same_number r.receipt_number receipt.receipt_number) db.goods_receipts
  throw_if taken unique_violation
  modify λ db. record db { goods_receipts = insert id receipt db.goods_receipts }
  pure receipt

unfoldable pub update_receipt : ℕ → (GoodsReceipt → GoodsReceipt) → M GoodsReceipt
update_receipt id change db = elim (lookup id db.goods_receipts) [
  | none ↦ (err record_not_found, db)
  | some r ↦ (ok (change r), record db { goods_receipts = insert id (change r) db.goods_receipts })
]

unfoldable pub delete_receipt : ℕ → M Done
delete_receipt id db = elim (lookup id db.goods_receipts) [
  | none ↦ (err record_not_found, db)
  | some _ ↦ (ok tt, record db { goods_receipts = erase id db.goods_receipts })
]

-- `goodsReceiptItem.update({ where: { id } })`
unfoldable pub update_item :
    ℕ → (ReceiptItem → ReceiptItem) → List ReceiptItem → Option (List ReceiptItem)
update_item id change [] = none
update_item id change (i ∷ is) =
    let rest = update_item id change is in
    if i.id == id
    then some (change i ∷ is)
    else elim rest [ none ↦ none | some is' ↦ some (i ∷ is') ]

pub record ReceivedUpdate : Type 0 where
  pub id : ℕ
  pub quantity_received : ℕ

pub record RejectedUpdate : Type 0 where
  pub id : ℕ
  pub quantity_rejected : ℕ
  pub remarks : String

abbrev pub set_received : ReceivedUpdate → ReceiptItem → ReceiptItem
set_received u i = record i { quantity_received = u.quantity_received }

abbrev pub set_rejected : RejectedUpdate → ReceiptItem → ReceiptItem
set_rejected u i = record i { quantity_rejected = u.quantity_rejected; remarks = some u.remarks }

-- the loops of the two transactions, in the order of the list
unfoldable pub update_received : List ReceivedUpdate → List ReceiptItem → Option (List ReceiptItem)
unfolding update_item
update_received [] items = some items
update_received (u ∷ us) items = elim (update_item u.id (set_received u) items) [
  | none ↦ none
  | some items' ↦ update_received us items'
]

unfoldable pub update_rejected : List RejectedUpdate → List ReceiptItem → Option (List ReceiptItem)
unfolding update_item
update_rejected [] items = some items
update_rejected (u ∷ us) items = elim (update_item u.id (set_rejected u) items) [
  | none ↦ none
  | some items' ↦ update_rejected us items'
]

-- A transaction: an item that is not found rolls everything back.
unfoldable pub write_items :
    ℕ → (List ReceiptItem → Option (List ReceiptItem)) → GoodsReceiptStatus → M GoodsReceipt
write_items id change status db = elim (lookup id db.goods_receipts) [
  | none ↦ (err record_not_found, db)
  | some r ↦ elim (change r.items) [
    | none ↦ (err record_not_found, db)
    | some items' ↦
        let r' : GoodsReceipt = record r { items = items'; status = status } in
        (ok r', record db { goods_receipts = insert id r' db.goods_receipts })
  ]
]

unfoldable pub receive_items : ℕ → List ReceivedUpdate → GoodsReceiptStatus → M GoodsReceipt
unfolding write_items
receive_items id updates status = write_items id (update_received updates) status

unfoldable pub reject_items : ℕ → List RejectedUpdate → GoodsReceiptStatus → M GoodsReceipt
unfolding write_items
reject_items id updates status = write_items id (update_rejected updates) status

unfoldable pub complete_receipt : ℕ → M GoodsReceipt
unfolding update_receipt
complete_receipt id = update_receipt id λ r. record r { status = GoodsReceiptStatus.completed }

abbrev pub count_by_organisation : ℕ → Database → ℕ
count_by_organisation org db = count_rows (λ r. r.organisation_id == org) db.goods_receipts

-- the order line and the received quantity of each item of a receipt
abbrev pub received_entries : List ReceiptItem → List (ℕ × ℕ)
received_entries = map λ i. (i.purchase_order_item_id, i.quantity_received)

-- getCumulativeReceivedByPurchaseOrder
unfoldable pub cumulative_received : ℕ → Table GoodsReceipt → List (ℕ × ℕ)
cumulative_received order_id [] = []
cumulative_received order_id ((_, r) ∷ t) =
    (if (r.purchase_order_id == order_id) && is_progress r.status
      then received_entries r.items
      else [])
    ++ cumulative_received order_id t
