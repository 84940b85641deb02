-- ===== src/Receipts/Service.antt =====
-- apps/api/src/goods-receipts/goods-receipts.service.ts. `mapGoodsReceipt` is left out: a method
-- returns the row. Quantities are whole numbers that are not negative. A comparison of a difference,
-- as `a - b + c > d`, stands here with the subtracted term on the other side, `d + b < a + c`, which
-- is the same on integers.
use enterprise_ai_procuremen.Prelude.{
  ℕ, ◌+◌, ◌-◌, Bool, true, false, not, ◌&&◌, ◌||◌, Option, none, some, List, [], ◌∷◌, map, String,
  is_empty, any, all, find, find_last, ltb, leb, ◌==◌, if◌then◌else◌,
}
use enterprise_ai_procuremen.Results.{
  Result, ok, err, Done, bad_request, forbidden, not_found, pure, gets, or_throw, throw_if,
  throw_unless, ◌>>=◌, ◌>>◌, ◌===◌, or_else, or_keep,
}
use enterprise_ai_procuremen.Store.{Table, lookup, insert}
use enterprise_ai_procuremen.Schema.{
  Role, user, procurement_manager, admin, OrderItem, PurchaseOrder, PurchaseOrderStatus,
  order_status_enum, GoodsReceipt, GoodsReceiptStatus, receipt_status_enum, ReceiptItem,
}
use enterprise_ai_procuremen.Database.{Database, M, Caller, Surroundings}
use enterprise_ai_procuremen.Orders.Repository.{find_order, update_status}
use enterprise_ai_procuremen.Receipts.Repository.{
  find_receipt, create_with_items, update_receipt, delete_receipt, ReceivedUpdate, RejectedUpdate,
  receive_items, reject_items, complete_receipt, count_by_organisation, cumulative_received,
}

-- GRN_RECEIVE_ROLES, GRN_VIEW_ROLES, GRN_COMPLETE_ROLES
abbrev pub grn_receive_roles : Role → Bool
grn_receive_roles admin = true
grn_receive_roles procurement_manager = true
grn_receive_roles user = true
grn_receive_roles _ = false

abbrev pub grn_complete_roles : Role → Bool
grn_complete_roles admin = true
grn_complete_roles _ = false

-- ELIGIBLE_PO_STATUSES
abbrev pub is_eligible : PurchaseOrderStatus → Bool
is_eligible PurchaseOrderStatus.issued = true
is_eligible PurchaseOrderStatus.acknowledged = true
is_eligible PurchaseOrderStatus.partially_delivered = true
is_eligible _ = false

pub record CreateGoodsReceiptDto : Type 0 where
  pub purchase_order_id : ℕ
  pub receipt_date : ℕ
  pub warehouse : Option String
  pub notes : Option String

pub record UpdateGoodsReceiptDto : Type 0 where
  pub receipt_date : Option ℕ
  pub warehouse : Option String
  pub notes : Option String

pub record ReceiveEntry : Type 0 where
  pub goods_receipt_item_id : ℕ
  pub quantity_received : ℕ

-- `has_remarks` is `entry.remarks?.trim()` read as a condition.
pub record RejectEntry : Type 0 where
  pub goods_receipt_item_id : ℕ
  pub quantity_rejected : ℕ
  pub remarks : String
  pub has_remarks : Bool

unfoldable pub get_receipt_or_throw : ℕ → ℕ → M GoodsReceipt
get_receipt_or_throw org id = do
  or_throw (← gets (find_receipt id org)) (not_found "Goods receipt not found")

abbrev pub get_order_of_receipt : ℕ → ℕ → M PurchaseOrder
get_order_of_receipt org id = do
  or_throw (← gets (find_order id org)) (not_found "Purchase order not found")

abbrev pub assert_can_receive : Role → M Done
assert_can_receive role =
    throw_unless (grn_receive_roles role)
      (forbidden "Insufficient permissions to manage goods receipts")

abbrev pub assert_draft : GoodsReceipt → M Done
assert_draft r =
    throw_unless (r.status === GoodsReceiptStatus.draft)
      (bad_request "Only draft goods receipts can be modified")

abbrev pub assert_receivable : GoodsReceipt → M Done
assert_receivable r =
    throw_if
      ((r.status === GoodsReceiptStatus.completed) || (r.status === GoodsReceiptStatus.rejected))
      (bad_request "Completed or rejected goods receipts cannot be updated")

unfoldable pub assert_purchase_order_eligible : PurchaseOrderStatus → M Done
assert_purchase_order_eligible status = do
  throw_if (status === PurchaseOrderStatus.cancelled)
      (bad_request "Cannot receive goods for cancelled purchase orders")
  throw_unless (is_eligible status) (
      bad_request
        "Goods receipts can only be created from issued, acknowledged, or partially delivered purchase orders")

unfoldable pub resolve_receipt_progress_status : List ReceiptItem → Bool → GoodsReceiptStatus
resolve_receipt_progress_status items rejection_context =
    let all_accounted_for =
      all (λ i. leb i.quantity_ordered (i.quantity_received + i.quantity_rejected)) items in
    let all_rejected =
      all (λ i. leb i.quantity_ordered i.quantity_rejected && (i.quantity_received == 0)) items in
    let any_received = any (λ i. ltb 0 i.quantity_received) items in
    let any_rejected = any (λ i. ltb 0 i.quantity_rejected) items in
    if all_rejected && (rejection_context || not any_received)
    then GoodsReceiptStatus.rejected
    else if all_accounted_for && any_received
    then GoodsReceiptStatus.received
    else if any_received || any_rejected
    then GoodsReceiptStatus.partially_received
    else GoodsReceiptStatus.draft

-- The `Map` that the loop builds, as a table of its entries.
unfoldable pub add_to_map : List (ℕ × ℕ) → Table ℕ → Table ℕ
add_to_map [] m = m
add_to_map ((line, quantity) ∷ es) m =
    add_to_map es (insert line (or_else (lookup line m) 0 + quantity) m)

unfoldable pub build_cumulative_map : List (ℕ × ℕ) → Table ℕ
unfolding add_to_map
build_cumulative_map entries = add_to_map entries []

-- `map.get(id) ?? 0`
abbrev pub get_received : ℕ → Table ℕ → ℕ
get_received line m = or_else (lookup line m) 0

abbrev pub received_map : ℕ → Database → Table ℕ
received_map order_id db = build_cumulative_map (cumulative_received order_id db.goods_receipts)

unfoldable pub sync_delivery_status : ℕ → ℕ → M Done
unfolding update_status
sync_delivery_status order_id org db = elim (find_order order_id org db) [
  | none ↦ (ok tt, db)
  | some order ↦
      let m = received_map order_id db in
      let all_fully_received = all (λ i. leb i.quantity (get_received i.id m)) order.items in
      let any_received = any (λ i. ltb 0 (get_received i.id m)) order.items in
      let next_status =
        if all_fully_received
        then PurchaseOrderStatus.completed
        else if any_received
        then PurchaseOrderStatus.partially_delivered
        else order.status in
      if (order.status === PurchaseOrderStatus.cancelled)
        || (order.status === PurchaseOrderStatus.draft)
      then (ok tt, db)
      else if next_status === order.status
      then (ok tt, db)
      else (update_status order_id next_status >>= λ _. pure tt) db
]

-- the lines with something left to receive
unfoldable pub remaining_items : (ℕ → ℕ) → ℕ → Table ℕ → List OrderItem → List ReceiptItem
remaining_items new_id n m [] = []
remaining_items new_id n m (i ∷ is) =
    let already_received = get_received i.id m in
    let rest = remaining_items new_id (n + 1) m is in
    if ltb already_received i.quantity
    then record {
      id = new_id n;
      purchase_order_item_id = i.id;
      quantity_ordered = i.quantity - already_received;
      quantity_received = 0;
      quantity_rejected = 0;
      remarks = none;
    }
      ∷ rest
    else rest

unfoldable pub create : Surroundings → Caller → CreateGoodsReceiptDto → M GoodsReceipt
unfolding assert_purchase_order_eligible
create env caller dto = do
  order ← get_order_of_receipt caller.organisation_id dto.purchase_order_id
  assert_purchase_order_eligible order.status
  throw_if (is_empty order.items) (bad_request "Purchase order must contain at least one line item")
  m ← gets (received_map dto.purchase_order_id)
  let items = remaining_items env.new_item_id 0 m order.items
  throw_if (is_empty items)
      (bad_request "All purchase order items have already been fully received")
  count ← gets (count_by_organisation caller.organisation_id)
  create_with_items env.new_id (record {
    receipt_number = record { year = env.year; sequence = count + 1 };
    purchase_order_id = dto.purchase_order_id;
    organisation_id = caller.organisation_id;
    received_by_id = caller.user_id;
    receipt_date = dto.receipt_date;
    warehouse = dto.warehouse;
    notes = dto.notes;
    status = GoodsReceiptStatus.draft;
    items = items;
  })

unfoldable pub update : Caller → ℕ → UpdateGoodsReceiptDto → M GoodsReceipt
unfolding get_receipt_or_throw update_receipt
update caller id dto = do
  assert_can_receive caller.role
  receipt ← get_receipt_or_throw caller.organisation_id id
  assert_draft receipt
  update_receipt id λ r. record r {
    receipt_date = or_else dto.receipt_date r.receipt_date;
    warehouse = or_keep dto.warehouse r.warehouse;
    notes = or_keep dto.notes r.notes;
  }

unfoldable pub delete : Caller → ℕ → M Done
unfolding get_receipt_or_throw delete_receipt
delete caller id = do
  assert_can_receive caller.role
  receipt ← get_receipt_or_throw caller.organisation_id id
  assert_draft receipt
  delete_receipt id

-- The body of the loop over `dto.items` in `receive`.
unfoldable pub check_received :
    PurchaseOrder → GoodsReceipt → Table ℕ → ReceiveEntry → Result ReceivedUpdate
check_received order receipt m entry =
    elim (find_last (λ i. i.id == entry.goods_receipt_item_id) receipt.items) [
      | none ↦ err (bad_request "Goods receipt item not found on this receipt")
      | some item ↦ elim (find_last (λ i. i.id == item.purchase_order_item_id) order.items) [
        | none ↦ err (bad_request "Purchase order item not found")
        | some line ↦
            if ltb item.quantity_ordered (entry.quantity_received + item.quantity_rejected)
            then err (
                bad_request
                  "Received quantity cannot exceed remaining receivable quantity for item")
            else if ltb (line.quantity + item.quantity_received)
                (get_received item.purchase_order_item_id m + entry.quantity_received)
            then err (
                bad_request
                  "Received quantity cannot exceed ordered quantity for purchase order item")
            else if ltb item.quantity_ordered (entry.quantity_received + item.quantity_rejected)
            then err (
                bad_request
                  "Received and rejected quantities cannot exceed ordered quantity on this receipt line")
            else ok (record { id = item.id; quantity_received = entry.quantity_received })
      ]
    ]

-- a `for` loop that pushes what its body gives, and stops at the first exception
unfoldable pub collect : {A B : Type 0} → (A → Result B) → List A → Result (List B)
collect f [] = ok []
collect f (x ∷ xs) = elim (f x) [
  | err e ↦ err e
  | ok y ↦ elim (collect f xs) [ err e ↦ err e | ok ys ↦ ok (y ∷ ys) ]
]

abbrev pub lift : {A : Type 0} → Result A → M A
lift r db = (r, db)

-- the items as the service expects them after the updates: the first update of an item counts
unfoldable pub with_received : List ReceivedUpdate → List ReceiptItem → List ReceiptItem
with_received updates = map λ i. elim (find (λ u. u.id == i.id) updates) [
  | none ↦ i
  | some u ↦ record i { quantity_received = u.quantity_received }
]

unfoldable pub with_rejected : List RejectedUpdate → List ReceiptItem → List ReceiptItem
with_rejected updates = map λ i. elim (find (λ u. u.id == i.id) updates) [
  | none ↦ i
  | some u ↦ record i { quantity_rejected = u.quantity_rejected; remarks = some u.remarks }
]

unfoldable pub receive : Caller → ℕ → List ReceiveEntry → M GoodsReceipt
unfolding get_receipt_or_throw assert_purchase_order_eligible
receive caller id entries = do
  assert_can_receive caller.role
  receipt ← get_receipt_or_throw caller.organisation_id id
  assert_receivable receipt
  order ← get_order_of_receipt caller.organisation_id receipt.purchase_order_id
  assert_purchase_order_eligible order.status
  m ← gets (received_map receipt.purchase_order_id)
  updates ← lift (collect (check_received order receipt m) entries)
  let status = resolve_receipt_progress_status (with_received updates receipt.items) false
  received ← receive_items id updates status
  sync_delivery_status receipt.purchase_order_id caller.organisation_id
  pure received

unfoldable pub check_rejected : GoodsReceipt → RejectEntry → Result RejectedUpdate
check_rejected receipt entry =
    elim (find_last (λ i. i.id == entry.goods_receipt_item_id) receipt.items) [
      | none ↦ err (bad_request "Goods receipt item not found on this receipt")
      | some item ↦
          if ltb 0 entry.quantity_rejected && not entry.has_remarks
          then err (bad_request "Rejected quantities must include remarks")
          else if ltb item.quantity_ordered (entry.quantity_rejected + item.quantity_received)
          then err
              (bad_request "Rejected quantity cannot exceed remaining quantity on receipt line")
          else ok (record {
            id = item.id;
            quantity_rejected = entry.quantity_rejected;
            remarks = entry.remarks;
          })
    ]

unfoldable pub reject : Caller → ℕ → List RejectEntry → M GoodsReceipt
unfolding get_receipt_or_throw assert_purchase_order_eligible
reject caller id entries = do
  assert_can_receive caller.role
  receipt ← get_receipt_or_throw caller.organisation_id id
  assert_receivable receipt
  order ← get_order_of_receipt caller.organisation_id receipt.purchase_order_id
  assert_purchase_order_eligible order.status
  updates ← lift (collect (check_rejected receipt) entries)
  let status = resolve_receipt_progress_status (with_rejected updates receipt.items) true
  rejected ← reject_items id updates status
  sync_delivery_status receipt.purchase_order_id caller.organisation_id
  pure rejected

unfoldable pub complete : Caller → ℕ → M GoodsReceipt
unfolding get_receipt_or_throw complete_receipt
complete caller id = do
  throw_unless (grn_complete_roles caller.role)
      (forbidden "Only admins may mark goods receipts as completed")
  receipt ← get_receipt_or_throw caller.organisation_id id
  throw_if (receipt.status === GoodsReceiptStatus.draft)
      (bad_request "Draft goods receipts must be received before completion")
  throw_if (receipt.status === GoodsReceiptStatus.completed)
      (bad_request "Goods receipt is already completed")
  throw_if (receipt.status === GoodsReceiptStatus.rejected)
      (bad_request "Rejected goods receipts cannot be marked as completed")
  throw_unless (any (λ i. ltb 0 i.quantity_received || ltb 0 i.quantity_rejected) receipt.items)
      (bad_request "Goods receipt must have received or rejected quantities before completion")
  completed ← complete_receipt id
  sync_delivery_status receipt.purchase_order_id caller.organisation_id
  pure completed
