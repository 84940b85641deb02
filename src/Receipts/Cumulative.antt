-- ===== src/Receipts/Cumulative.antt =====
-- The cumulative map against a plain sum over the receipts of an order.
use enterprise_ai_procuremen.Prelude.{
  ℕ, ◌+◌, ◌≡◌, refl, ◌∙◌, ◌&&◌, List, [], ◌∷◌, ◌++◌, arith, ◌==◌, if◌then◌else◌,
}
use enterprise_ai_procuremen.Store.{Table, insert, sum_rows, lookup-insert_self, lookup-insert_ne}
use enterprise_ai_procuremen.Schema.{GoodsReceipt}
use enterprise_ai_procuremen.Database.{Database}
use enterprise_ai_procuremen.Receipts.Repository.{
  cumulative_received, received_entries, is_progress,
}
use enterprise_ai_procuremen.Receipts.Service.{
  add_to_map, build_cumulative_map, get_received, received_map,
}

-- the quantities that a list of entries gives to a line
abbrev pub sum_for : ℕ → List (ℕ × ℕ) → ℕ
sum_for line [] = 0
sum_for line ((l, q) ∷ es) = (if line == l then q else 0) + sum_for line es

-- what a receipt adds to a line of an order
abbrev pub contribution : ℕ → ℕ → GoodsReceipt → ℕ
contribution order_id line r =
    if (r.purchase_order_id == order_id) && is_progress r.status
    then sum_for line (received_entries r.items)
    else 0

add_to_map-sum :
    (line : ℕ) (es : List (ℕ × ℕ)) (m : Table ℕ)
    → get_received line (add_to_map es m) ≡ get_received line m + sum_for line es
unfolding add_to_map
add_to_map-sum line [] m = omega arith
add_to_map-sum line ((l, q) ∷ es) m = ground (
  arith,
  add_to_map-sum line es (insert l (get_received l m + q) m),
  lookup-insert_self l (get_received l m + q) m,
  lookup-insert_ne line l (get_received l m + q) m,
)

sum_for-append :
    (line : ℕ) (xs ys : List (ℕ × ℕ)) → sum_for line (xs ++ ys) ≡ sum_for line xs + sum_for line ys
sum_for-append line [] ys = omega arith
sum_for-append line (x ∷ xs) ys = omega (arith, sum_for-append line xs ys)

sum_for-cumulative :
    (order_id line : ℕ) (t : Table GoodsReceipt)
    → sum_for line (cumulative_received order_id t) ≡ sum_rows (contribution order_id line) t
unfolding cumulative_received
sum_for-cumulative order_id line [] = refl
sum_for-cumulative order_id line ((k, r) ∷ t) =
    sum_for-append line _ (cumulative_received order_id t)
    ∙ ground (arith, sum_for-cumulative order_id line t)

-- What the service reads for a line is the sum over the receipts of the order whose status counts as
-- progress.
pub received_map-sum :
    (order_id line : ℕ) (db : Database)
    → get_received line (received_map order_id db)
      ≡ sum_rows (contribution order_id line) db.goods_receipts
unfolding build_cumulative_map
received_map-sum order_id line db = omega (
  arith,
  add_to_map-sum line (cumulative_received order_id db.goods_receipts) [],
  sum_for-cumulative order_id line db.goods_receipts,
)
