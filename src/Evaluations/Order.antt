-- ===== src/Evaluations/Order.antt =====
-- The order of the rankings.
use enterprise_ai_procuremen.Prelude.{
  ℕ, ◌+◌, ◌≡◌, ◌⊎◌, ◌≤◌, ◌<◌, inl, inr, refl, true, false, List, [], ◌∷◌, map, All, arith,
  Bool-cases,
}
use enterprise_ai_procuremen.Sourcing.Schema.{Bid, BidEvaluation}
use enterprise_ai_procuremen.Evaluations.Rankings.{
  Ranking, group_scores, to_ranking, before, insert_ranking, sort_rankings, number_from, rank_all,
}

-- A higher score, or the same score for an amount that is not higher.
abbrev pub IsAtLeast : Ranking → Ranking → Type 0
IsAtLeast r y =
    (y.total_score < r.total_score)
    ⊎ ((y.total_score ≡ r.total_score) × (r.total_amount ≤ y.total_amount))

-- The positions count up from `n`, and no ranking comes before a better one.
abbrev pub IsRanked : ℕ → List (ℕ × Ranking) → Type 0
IsRanked n [] = Unit
IsRanked n ((k, r) ∷ rows) = (k ≡ n) × All (λ y. IsAtLeast r y.1) rows × IsRanked (n + 1) rows

abbrev IsSorted : List Ranking → Type 0
IsSorted [] = Unit
IsSorted (r ∷ rs) = All (IsAtLeast r) rs × IsSorted rs

module _ (P : Ranking → Type 0) where
  insert_ranking-All :
      (r : Ranking) (xs : List Ranking) → P r → All P xs → All P (insert_ranking r xs)
  unfolding insert_ranking
  insert_ranking-All r [] h a = (h, tt)
  insert_ranking-All r (x ∷ xs) h a = elim (Bool-cases (before x r)) [
    | inl later ↦ rw later (a.0, insert_ranking-All r xs h a.1)
    | inr first ↦ rw first (h, a)
  ]

  pub sort_rankings-All : (rs : List Ranking) → All P rs → All P (sort_rankings rs)
  unfolding sort_rankings
  sort_rankings-All [] a = tt
  sort_rankings-All (r ∷ rs) a =
      insert_ranking-All r (sort_rankings rs) a.0 (sort_rankings-All rs a.1)

  pub number_from-All : (n : ℕ) (rs : List Ranking) → All P rs → All (λ y. P y.1) (number_from n rs)
  unfolding number_from
  number_from-All n [] a = tt
  number_from-All n (r ∷ rs) a = (a.0, number_from-All (n + 1) rs a.1)

IsAtLeast-of_before : (x r : Ranking) → before x r ≡ true → IsAtLeast x r
unfolding before
IsAtLeast-of_before x r h = ground arith

IsAtLeast-of_not : (x r : Ranking) → before x r ≡ false → IsAtLeast r x
unfolding before
IsAtLeast-of_not x r h = ground arith

IsAtLeast-all :
    (r x : Ranking) (xs : List Ranking)
    → IsAtLeast r x
    → All (IsAtLeast x) xs
    → All (IsAtLeast r) xs
IsAtLeast-all r x [] h a = tt
IsAtLeast-all r x (y ∷ ys) h a = (ground (arith, a.0), IsAtLeast-all r x ys h a.1)

insert_ranking-IsSorted :
    (r : Ranking) (xs : List Ranking) → IsSorted xs → IsSorted (insert_ranking r xs)
unfolding insert_ranking
insert_ranking-IsSorted r [] v = (tt, tt)
insert_ranking-IsSorted r (x ∷ xs) v = elim (Bool-cases (before x r)) [
  | inl later ↦ rw later (
    insert_ranking-All (IsAtLeast x) r xs (IsAtLeast-of_before x r later) v.0,
    insert_ranking-IsSorted r xs v.1,
  )
  | inr first ↦
      let top = IsAtLeast-of_not x r first in rw first ((top, IsAtLeast-all r x xs top v.0), v)
]

sort_rankings-IsSorted : (rs : List Ranking) → IsSorted (sort_rankings rs)
unfolding sort_rankings
sort_rankings-IsSorted [] = tt
sort_rankings-IsSorted (r ∷ rs) =
    insert_ranking-IsSorted r (sort_rankings rs) (sort_rankings-IsSorted rs)

number_from-IsRanked : (n : ℕ) (rs : List Ranking) → IsSorted rs → IsRanked n (number_from n rs)
unfolding number_from
number_from-IsRanked n [] v = tt
number_from-IsRanked n (r ∷ rs) v =
    (refl, number_from-All (IsAtLeast r) (n + 1) rs v.0, number_from-IsRanked (n + 1) rs v.1)

-- The rankings of any evaluations are numbered from 1 in their order, the better score first and of
-- two equal scores the lower amount first.
pub rank_all-IsRanked : (vs : List (BidEvaluation × Bid)) → IsRanked 1 (rank_all vs)
unfolding rank_all
rank_all-IsRanked vs =
    number_from-IsRanked 1 (sort_rankings (map to_ranking (group_scores [] vs)))
      (sort_rankings-IsSorted (map to_ranking (group_scores [] vs)))
