-- ===== src/Receipts/Quantities.antt =====
-- No order line is ever received beyond its ordered quantity.
use enterprise_ai_procuremen.Prelude.{
  ℕ, ◌+◌, ◌≤◌, ◌≡◌, refl, false, some, List, arith, ◌==◌, find_last, Bool-cases, inl, inr, ==_iff,
}
use enterprise_ai_procuremen.Results.{ok}
use enterprise_ai_procuremen.Store.{lookup, sum_rows, sum_rows-insert}
use enterprise_ai_procuremen.Schema.{OrderItem, PurchaseOrder, GoodsReceipt, ReceiptItem}
use enterprise_ai_procuremen.Database.{Database, Caller}
use enterprise_ai_procuremen.Orders.Repository.{find_order}
use enterprise_ai_procuremen.Receipts.Repository.{ReceivedUpdate, update_received, is_progress}
use enterprise_ai_procuremen.Receipts.Service.{
  ReceiveEntry, check_received, collect, get_received, received_map, receive,
}
use enterprise_ai_procuremen.Receipts.Cumulative.{contribution, received_map-sum}
use enterprise_ai_procuremen.Receipts.Lines.{keys, IsDistinct, on_line}
use enterprise_ai_procuremen.Receipts.Checks.{
  IsFit, check_received-IsFit, collect-All, update_received-Room,
}
use enterprise_ai_procuremen.Receipts.ReceiveWrites.{written, receive_cases}

-- A receipt names each of its order lines once, and one that does not count as progress has received
-- nothing.
pub record IsValid (r : GoodsReceipt) : Type 0 where
  pub distinct : IsDistinct (keys r.items)
  pub clean : is_progress r.status ≡ false → (line : ℕ) → on_line line r.items ≡ 0

-- No line of the order has more received than was ordered.
abbrev pub IsWithin : ℕ → PurchaseOrder → Database → Type 0
IsWithin order_id order db =
    (line : ℕ) (o : OrderItem)
    → find_last (λ j. j.id == line) order.items ≡ some o
    → get_received line (received_map order_id db) ≤ o.quantity

find_order_lem :
    (k org : ℕ) (db : Database) (o p : PurchaseOrder)
    → lookup k db.purchase_orders ≡ some o
    → find_order k org db ≡ some p
    → p ≡ o
unfolding find_order
find_order_lem k org db o p e f = ground arith

contribution_valid :
    (k line : ℕ) (r : GoodsReceipt)
    → IsValid r
    → r.purchase_order_id ≡ k
    → contribution k line r ≡ on_line line r.items
contribution_valid k line r v e =
    ground (arith, v.clean, (λ (h : is_progress r.status ≡ false). v.clean h line))

contribution-le : (k line : ℕ) (r : GoodsReceipt) → contribution k line r ≤ on_line line r.items
contribution-le k line r = ground arith

contribution_other :
    (k line : ℕ) (r : GoodsReceipt) → (r.purchase_order_id == k) ≡ false → contribution k line r ≡ 0
contribution_other k line r h = ground arith

module _ (order : PurchaseOrder) (r : GoodsReceipt) (db : Database) (v : IsValid r) where
  -- After the updates of one call, the receipt's own order is within its quantities.
  updates_fit :
      (entries : List ReceiveEntry) (us : List ReceivedUpdate) (items : List ReceiptItem)
      → IsWithin r.purchase_order_id order db
      → collect (check_received order r (received_map r.purchase_order_id db)) entries ≡ ok us
      → update_received us r.items ≡ some items
      → (line : ℕ) (o : OrderItem) → find_last (λ j. j.id == line) order.items ≡ some o
      → get_received line (received_map r.purchase_order_id db) + on_line line items
        ≤ o.quantity + on_line line r.items
  updates_fit entries us items within c d =
      let m = received_map r.purchase_order_id db in
      (update_received-Room order r m v.distinct us r.items items
        (collect-All (IsFit order r m) (check_received order r m)
          (λ x y h. check_received-IsFit order r m x y v.distinct h) entries us c)
        refl (λ line o ho. omega (arith, within line o ho)) d).1

-- Receiving goods keeps every order within its ordered quantities, whatever entries are sent, in
-- whatever number and order, and whether the request succeeds or not, if the receipt that the request
-- names is valid.
pub receive-IsWithin :
    (caller : Caller) (id : ℕ) (entries : List ReceiveEntry) (db : Database) (k : ℕ)
    (order : PurchaseOrder)
    → lookup k db.purchase_orders ≡ some order
    → ((r : GoodsReceipt) → lookup id db.goods_receipts ≡ some r → IsValid r)
    → IsWithin k order db
    → IsWithin k order (receive caller id entries db).1
receive-IsWithin caller id entries db k order e valid within line o ho =
    rw (received_map-sum k line (receive caller id entries db).1) (
      receive_cases caller id entries db (λ t. sum_rows (contribution k line) t ≤ o.quantity)
        (rw (received_map-sum k line db) at (within line o ho))
        λ r p us items a b c d.
          let v = valid r a in
          let change =
            sum_rows-insert (contribution k line) id (written caller id entries db r us items) r
              db.goods_receipts a in
          elim (Bool-cases (r.purchase_order_id == k)) [
            | inl mine ↦
                let own = (==_iff r.purchase_order_id k).0 mine in
                let same = find_order_lem k caller.organisation_id db order p e (rw own at b) in
                let room =
                  updates_fit order r db v entries us items (rw (← own) at within) (rw same at c) d
                    line o ho in
                omega (
                  arith,
                  change,
                  rw own at room,
                  received_map-sum k line db,
                  contribution_valid k line r v own,
                  contribution-le k line (written caller id entries db r us items),
                )
            | inr other ↦ omega (
              arith,
              change,
              rw (received_map-sum k line db) at (within line o ho),
              contribution_other k line r other,
              contribution_other k line (written caller id entries db r us items) other,
            )
          ])
