-- ===== src/Store.antt =====
-- A database table: its rows under their primary keys, oldest first.
use enterprise_ai_procuremen.Prelude.{
  ℕ, ◌+◌, ◌≡◌, refl, ◌≢◌, true, false, Bool, ◌||◌, Option, none, some, List, [], ◌∷◌, arith, ◌==◌,
  if◌then◌else◌, Bool-cases, inl, inr,
}

abbrev pub Table : Type 0 → Type 0
Table R = List (ℕ × R)

module _ {R : Type 0} where
  abbrev pub lookup : ℕ → Table R → Option R
  lookup k [] = none
  lookup k ((j, r) ∷ t) = if k == j then some r else lookup k t

  -- A row written at its key, or appended.
  abbrev pub insert : ℕ → R → Table R → Table R
  insert k r [] = (k, r) ∷ []
  insert k r (e ∷ t) = if k == e.0 then (k, r) ∷ t else e ∷ insert k r t

  abbrev pub erase : ℕ → Table R → Table R
  erase k [] = []
  erase k (e ∷ t) = if k == e.0 then t else e ∷ erase k t

  -- Does some row satisfy `p`?
  abbrev pub any_row : (R → Bool) → Table R → Bool
  any_row p [] = false
  any_row p ((_, r) ∷ t) = p r || any_row p t

  -- `count({ where: p })`
  abbrev pub count_rows : (R → Bool) → Table R → ℕ
  count_rows p [] = 0
  count_rows p ((_, r) ∷ t) = (if p r then 1 else 0) + count_rows p t

  -- the sum of `f` over the rows
  abbrev pub sum_rows : (R → ℕ) → Table R → ℕ
  sum_rows f [] = 0
  sum_rows f ((_, r) ∷ t) = f r + sum_rows f t

  pub lookup-insert_self : (k : ℕ) (r : R) (t : Table R) → lookup k (insert k r t) ≡ some r
  lookup-insert_self k r [] = ground arith
  lookup-insert_self k r (e ∷ t) = ground (arith, lookup-insert_self k r t)

  pub lookup-insert_ne :
      (j k : ℕ) (r : R) (t : Table R) → j ≢ k → lookup j (insert k r t) ≡ lookup j t
  lookup-insert_ne j k r [] h = ground arith
  lookup-insert_ne j k r (e ∷ t) h = ground (arith, lookup-insert_ne j k r t h)

  pub lookup-erase_ne : (j k : ℕ) (t : Table R) → j ≢ k → lookup j (erase k t) ≡ lookup j t
  lookup-erase_ne j k [] h = refl
  lookup-erase_ne j k (e ∷ t) h = ground (arith, lookup-erase_ne j k t h)

  -- A sum over the rows follows a write to one of them.
  pub sum_rows-insert :
      (f : R → ℕ) (k : ℕ) (r old : R) (t : Table R)
      → lookup k t ≡ some old
      → sum_rows f (insert k r t) + f old ≡ sum_rows f t + f r
  sum_rows-insert f k r old [] e = ground arith
  sum_rows-insert f k r old (x ∷ t) e = ground (arith, sum_rows-insert f k r old t)

  -- No primary key stands twice.
  abbrev pub IsKeyed : Table R → Type 0
  IsKeyed [] = Unit
  IsKeyed ((k, _) ∷ t) = (lookup k t ≡ none) × IsKeyed t

  pub insert-IsKeyed : (k : ℕ) (r : R) (t : Table R) → IsKeyed t → IsKeyed (insert k r t)
  insert-IsKeyed k r [] h = (refl, tt)
  insert-IsKeyed k r (e ∷ t) h =
      ground (arith, insert-IsKeyed k r t h.1, lookup-insert_ne e.0 k r t)

  pub lookup-erase_self : (k : ℕ) (t : Table R) → IsKeyed t → lookup k (erase k t) ≡ none
  lookup-erase_self k [] h = refl
  lookup-erase_self k (e ∷ t) h = ground (arith, lookup-erase_self k t h.1)

  pub erase-IsKeyed : (k : ℕ) (t : Table R) → IsKeyed t → IsKeyed (erase k t)
  erase-IsKeyed k [] h = tt
  erase-IsKeyed k (e ∷ t) h = ground (arith, erase-IsKeyed k t h.1, lookup-erase_ne e.0 k t)

  -- A row that is there counts.
  pub any_row-lookup :
      (p : R → Bool) (k : ℕ) (r : R) (t : Table R)
      → lookup k t ≡ some r
      → p r ≡ true
      → any_row p t ≡ true
  any_row-lookup p k r [] e h = ground arith
  any_row-lookup p k r (x ∷ t) e h = ground (arith, any_row-lookup p k r t)

  -- Is there a row with this primary key?
  abbrev pub has_key : ℕ → Table R → Bool
  has_key k t = elim (lookup k t) [ none ↦ false | some _ ↦ true ]

  -- the rows that satisfy `p`
  abbrev pub keep_rows : (R → Bool) → Table R → Table R
  keep_rows p [] = []
  keep_rows p ((k, r) ∷ t) = if p r then (k, r) ∷ keep_rows p t else keep_rows p t

  pub lookup-keep_rows :
      (p : R → Bool) (k : ℕ) (t : Table R)
      → IsKeyed t
      → lookup k (keep_rows p t)
        ≡ elim (lookup k t) [ none ↦ none | some r ↦ if p r then some r else none ]
  lookup-keep_rows p k [] h = refl
  lookup-keep_rows p k ((j, r) ∷ t) h = ground (arith, lookup-keep_rows p k t h.1)

  pub keep_rows-IsKeyed : (p : R → Bool) (t : Table R) → IsKeyed t → IsKeyed (keep_rows p t)
  keep_rows-IsKeyed p [] h = tt
  keep_rows-IsKeyed p ((k, r) ∷ t) h =
      ground (arith, keep_rows-IsKeyed p t h.1, lookup-keep_rows p k t h.1)

  -- Rows that satisfy `p` are found again among those that are kept, if all of them are kept.
  pub any_row-keep_rows :
      (p q : R → Bool) (t : Table R)
      → ((r : R) → p r ≡ true → q r ≡ true)
      → any_row p t ≡ true
      → any_row p (keep_rows q t) ≡ true
  any_row-keep_rows p q [] h e = e
  any_row-keep_rows p q ((k, r) ∷ t) h e = ground (arith, h r, any_row-keep_rows p q t h)

  -- A write at a key keeps what is found, if the row that it replaces was not the only reason.
  pub any_row-insert :
      (p : R → Bool) (k : ℕ) (r : R) (t : Table R)
      → ((old : R) → lookup k t ≡ some old → p old ≡ true → p r ≡ true)
      → any_row p t ≡ true
      → any_row p (insert k r t) ≡ true
  any_row-insert p k r [] h e = cc
  any_row-insert p k r ((j, x) ∷ t) h e = elim (Bool-cases (k == j)) [
    | inl same ↦ ground (arith, h x)
    | inr other ↦ ground (arith, any_row-insert p k r t (λ old l. h old (rw other l)))
  ]

  -- The last write at a key stands.
  pub insert-insert : (k : ℕ) (x r : R) (t : Table R) → insert k r (insert k x t) ≡ insert k r t
  insert-insert k x r [] = ground arith
  insert-insert k x r (e ∷ t) = ground (arith, insert-insert k x r t)
