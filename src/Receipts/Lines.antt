-- ===== src/Receipts/Lines.antt =====
-- The items of one receipt under the updates of a transaction: each holds another order line.
use enterprise_ai_procuremen.Prelude.{
  ℕ, ◌≡◌, ◌≢◌, refl, Option, none, some, List, [], ◌∷◌, map, arith, ◌==◌, All, find_last,
  Option-cases, inl, inr, if◌then◌else◌,
}
use enterprise_ai_procuremen.Schema.{ReceiptItem}
use enterprise_ai_procuremen.Receipts.Repository.{
  update_item, received_entries, set_received, ReceivedUpdate,
}
use enterprise_ai_procuremen.Receipts.Cumulative.{sum_for}

-- the key and the order line of each item
abbrev pub keys : List ReceiptItem → List (ℕ × ℕ)
keys = map λ i. (i.id, i.purchase_order_item_id)

abbrev pub Differs : ℕ × ℕ → ℕ × ℕ → Type 0
Differs (i, l) (j, m) = (j ≢ i) × (m ≢ l)

-- No item key and no order line stands twice.
abbrev pub IsDistinct : List (ℕ × ℕ) → Type 0
IsDistinct [] = Unit
IsDistinct (k ∷ ks) = All (Differs k) ks × IsDistinct ks

abbrev pub line_of : ℕ → List (ℕ × ℕ) → Option ℕ
line_of id [] = none
line_of id ((i, l) ∷ ks) = elim (line_of id ks) [
  | some m ↦ some m
  | none ↦ if i == id then some l else none
]

-- the received quantity of an order line on the receipt
abbrev pub on_line : ℕ → List ReceiptItem → ℕ
on_line line items = sum_for line (received_entries items)

line_of-Differs :
    (i l id m : ℕ) (ks : List (ℕ × ℕ))
    → All (Differs (i, l)) ks
    → line_of id ks ≡ some m
    → (id ≢ i) × (m ≢ l)
line_of-Differs i l id m [] h e = cc
line_of-Differs i l id m ((j, n) ∷ ks) h e = ground (arith, line_of-Differs i l id m ks h.1)

on_line-zero :
    (i l : ℕ) (items : List ReceiptItem) → All (Differs (i, l)) (keys items) → on_line l items ≡ 0
on_line-zero i l [] h = refl
on_line-zero i l (x ∷ xs) h = ground (arith, on_line-zero i l xs h.1)

find_last-line_of-none :
    (id : ℕ) (items : List ReceiptItem)
    → find_last (λ i. i.id == id) items ≡ none
    → line_of id (keys items) ≡ none
find_last-line_of-none id [] e = refl
find_last-line_of-none id (x ∷ xs) e = elim (Option-cases (find_last (λ i. i.id == id) xs)) [
  | inl n ↦ ground (arith, find_last-line_of-none id xs n)
  | inr (y, h) ↦ ground arith
]

pub find_last-line_of :
    (id : ℕ) (items : List ReceiptItem) (item : ReceiptItem)
    → find_last (λ i. i.id == id) items ≡ some item
    → line_of id (keys items) ≡ some item.purchase_order_item_id
find_last-line_of id [] item e = cc
find_last-line_of id (x ∷ xs) item e = elim (Option-cases (find_last (λ i. i.id == id) xs)) [
  | inl n ↦ ground (arith, find_last-line_of-none id xs n)
  | inr (y, h) ↦ ground (arith, find_last-line_of id xs y h)
]

pub find_last-on_line :
    (id : ℕ) (items : List ReceiptItem) (item : ReceiptItem)
    → IsDistinct (keys items)
    → find_last (λ i. i.id == id) items ≡ some item
    → (item.id ≡ id) × (on_line item.purchase_order_item_id items ≡ item.quantity_received)
find_last-on_line id [] item d e = cc
find_last-on_line id (x ∷ xs) item d e = elim (Option-cases (find_last (λ i. i.id == id) xs)) [
  | inl n ↦ ground (arith, on_line-zero x.id x.purchase_order_item_id xs d.0)
  | inr (y, h) ↦ ground (
    arith,
    find_last-on_line id xs y d.1 h,
    line_of-Differs x.id x.purchase_order_item_id id y.purchase_order_item_id (keys xs) d.0
        (find_last-line_of id xs y h),
  )
]

pub keys-update_item :
    (u : ReceivedUpdate) (items items' : List ReceiptItem)
    → update_item u.id (set_received u) items ≡ some items'
    → keys items' ≡ keys items
unfolding update_item
keys-update_item u [] items' e = cc
keys-update_item u (x ∷ xs) items' e = elim (Option-cases (update_item u.id (set_received u) xs)) [
  | inl n ↦ ground arith
  | inr (ys, h) ↦ ground (arith, keys-update_item u xs ys h)
]

-- An update sets the quantity of the line that its item holds, and of no other.
pub on_line-update_item :
    (u : ReceivedUpdate) (m line : ℕ) (items items' : List ReceiptItem)
    → IsDistinct (keys items)
    → line_of u.id (keys items) ≡ some m
    → update_item u.id (set_received u) items ≡ some items'
    → on_line line items' ≡ (if line == m then u.quantity_received else on_line line items)
unfolding update_item
on_line-update_item u m line [] items' d k e = cc
on_line-update_item u m line (x ∷ xs) items' d k e = elim (Option-cases (line_of u.id (keys xs))) [
  | inl n ↦ ground (arith, on_line-zero x.id x.purchase_order_item_id xs d.0)
  | inr (m', h) ↦
      let apart = line_of-Differs x.id x.purchase_order_item_id u.id m' (keys xs) d.0 h in
      elim (Option-cases (update_item u.id (set_received u) xs)) [
        | inl n ↦ ground arith
        | inr (ys, g) ↦ ground (arith, on_line-update_item u m' line xs ys d.1 h g)
      ]
]
