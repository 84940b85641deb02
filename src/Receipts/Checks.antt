-- ===== src/Receipts/Checks.antt =====
-- What the checks of `receive` leave: every update fits the ordered quantity of its line.
use enterprise_ai_procuremen.Prelude.{
  ℕ, ◌+◌, ◌≤◌, ◌≡◌, ◌∙◌, some, List, [], ◌∷◌, arith, ◌==◌, All, find_last, Option-cases, Bool-cases,
  inl, inr, ==_iff,
}
use enterprise_ai_procuremen.Results.{Result, ok, Result-cases}
use enterprise_ai_procuremen.Store.{Table}
use enterprise_ai_procuremen.Schema.{OrderItem, PurchaseOrder, GoodsReceipt, ReceiptItem}
use enterprise_ai_procuremen.Receipts.Repository.{
  ReceivedUpdate, set_received, update_item, update_received,
}
use enterprise_ai_procuremen.Receipts.Service.{ReceiveEntry, check_received, collect, get_received}
use enterprise_ai_procuremen.Receipts.Lines.{
  keys, IsDistinct, line_of, on_line, find_last-line_of, find_last-on_line, keys-update_item,
  on_line-update_item,
}

-- The line `l` of an order has room for `q` beyond what is on the receipt already.
abbrev pub Fits : PurchaseOrder → GoodsReceipt → Table ℕ → ReceivedUpdate → ℕ → Type 0
Fits order receipt m u line =
    (line_of u.id (keys receipt.items) ≡ some line)
    × ((o : OrderItem)
        → find_last (λ j. j.id == line) order.items ≡ some o
        → get_received line m + u.quantity_received ≤ o.quantity + on_line line receipt.items)

abbrev pub IsFit : PurchaseOrder → GoodsReceipt → Table ℕ → ReceivedUpdate → Type 0
IsFit order receipt m u = (line : ℕ) × Fits order receipt m u line

pub check_received-IsFit :
    (order : PurchaseOrder) (receipt : GoodsReceipt) (m : Table ℕ) (entry : ReceiveEntry)
    (u : ReceivedUpdate)
    → IsDistinct (keys receipt.items)
    → check_received order receipt m entry ≡ ok u
    → IsFit order receipt m u
unfolding check_received
check_received-IsFit order receipt m entry u d e =
    elim (Option-cases (find_last (λ i. i.id == entry.goods_receipt_item_id) receipt.items)) [
      | inl n ↦ absurd (ground arith)
      | inr (item, h) ↦
          let (same, on) = find_last-on_line _ receipt.items item d h in
          let at = find_last-line_of _ receipt.items item h in
          (item.purchase_order_item_id, (ground arith, λ o ho. ground arith))
    ]

pub collect-All :
    {A B : Type 0} (P : B → Type 0) (f : A → Result B)
    → ((x : A) (y : B) → f x ≡ ok y → P y)
    → (xs : List A) (ys : List B) → collect f xs ≡ ok ys
    → All P ys
unfolding collect
collect-All P f h [] [] e = tt
collect-All P f h [] (y ∷ ys) e = cc
collect-All P f h (x ∷ xs) ys e = elim (Result-cases (f x)) [
  | inr (bad, n) ↦ absurd (ground arith)
  | inl (y, g) ↦ elim (Result-cases (collect f xs)) [
    | inr (bad, n) ↦ absurd (ground arith)
    | inl (zs, k) ↦
        let same : y ∷ zs ≡ ys = ground arith in rw (← same) (h x y g, collect-All P f h xs zs k)
  ]
]

module _ (order : PurchaseOrder) (receipt : GoodsReceipt) (m : Table ℕ)
    (d : IsDistinct (keys receipt.items)) where
  -- the cumulative quantities with `items` in the place of the receipt's items
  abbrev pub Room : List ReceiptItem → Type 0
  Room items =
      (line : ℕ) (o : OrderItem)
      → find_last (λ j. j.id == line) order.items ≡ some o
      → get_received line m + on_line line items ≤ o.quantity + on_line line receipt.items

  pub update_received-Room :
      (us : List ReceivedUpdate) (items items' : List ReceiptItem)
      → All (IsFit order receipt m) us
      → keys items ≡ keys receipt.items
      → Room items
      → update_received us items ≡ some items'
      → (keys items' ≡ keys receipt.items) × Room items'
  unfolding update_received
  update_received-Room [] items items' f k r e =
      let same : items ≡ items' = cc in rw (← same) (k, r)
  update_received-Room (u ∷ us) items items' ((line, (at, room)), f) k r e =
      elim (Option-cases (update_item u.id (set_received u) items)) [
        | inl n ↦ absurd (ground arith)
        | inr (next, h) ↦
            update_received-Room us next items' f (keys-update_item u items next h ∙ k)
              (λ l o ho.
                let now = on_line-update_item u line l items next (rw k d) (rw k at) h in
                elim (Bool-cases (l == line)) [
                  | inl same ↦
                      let p = (==_iff l line).0 same in rw (now, same, p) (room o (rw p at ho))
                  | inr other ↦ rw (now, other) (r l o ho)
                ])
              (ground arith)
      ]
