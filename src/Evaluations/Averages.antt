-- ===== src/Evaluations/Averages.antt =====
-- What each ranking holds, and that each evaluated bid has one.
use enterprise_ai_procuremen.Prelude.{
  ℕ, ◌+◌, ◌≡◌, ◌≢◌, ◌∙◌, inl, inr, refl, sym, ap, true, false, List, is_empty, [], ◌∷◌, ◌++◌, map,
  length, any, All, arith, ◌==◌, Bool-cases, if◌then◌else◌,
}
use mathlib.Core.List.{append-nil, append_assoc}
use enterprise_ai_procuremen.Decimals.{of_nat, of_cents, num_div, sum, to_fixed2}
use enterprise_ai_procuremen.Sourcing.Schema.{Bid, BidEvaluation}
use enterprise_ai_procuremen.Evaluations.Rankings.{
  BidScores, Ranking, add_score, group_scores, average, to_ranking, before, insert_ranking,
  sort_rankings, number_from, rank_all,
}
use enterprise_ai_procuremen.Evaluations.Order.{sort_rankings-All, number_from-All}

-- the scores that a bid got, in the order of the evaluations
abbrev pub scores_of : ℕ → List (BidEvaluation × Bid) → List ℕ
scores_of k [] = []
scores_of k ((v, b) ∷ vs) = if v.bid_id == k then v.total_score ∷ scores_of k vs else scores_of k vs

abbrev entry_scores : ℕ → List BidScores → List ℕ
entry_scores k [] = []
entry_scores k (e ∷ es) = if e.bid_id == k then e.scores else entry_scores k es

entry_scores-add :
    (k : ℕ) (v : BidEvaluation) (b : Bid) (es : List BidScores)
    → entry_scores k (add_score v b es)
      ≡ (if v.bid_id == k then entry_scores k es ++ (v.total_score ∷ []) else entry_scores k es)
unfolding add_score
entry_scores-add k v b [] = ground arith
entry_scores-add k v b (e ∷ es) = ground (arith, entry_scores-add k v b es)

entry_scores-group :
    (k : ℕ) (es : List BidScores) (vs : List (BidEvaluation × Bid))
    → entry_scores k (group_scores es vs) ≡ entry_scores k es ++ scores_of k vs
unfolding group_scores
entry_scores-group k es [] = sym (append-nil (entry_scores k es))
entry_scores-group k es ((v, b) ∷ vs) =
    let ih = entry_scores-group k (add_score v b es) vs in
    elim (Bool-cases (v.bid_id == k)) [
      | inl same ↦
          let added : entry_scores k (add_score v b es)
              ≡ entry_scores k es ++ (v.total_score ∷ []) =
            entry_scores-add k v b es ∙ rw same refl in
          ih
          ∙ ap (λ l. l ++ scores_of k vs) added
          ∙ append_assoc (entry_scores k es) (v.total_score ∷ []) _
          ∙ rw same refl
      | inr other ↦
          let kept : entry_scores k (add_score v b es) ≡ entry_scores k es =
            entry_scores-add k v b es ∙ rw other refl in
          ih ∙ ap (λ l. l ++ scores_of k vs) kept ∙ rw other refl
    ]

-- No bid has two entries.
abbrev IsDistinct : List BidScores → Type 0
IsDistinct [] = Unit
IsDistinct (e ∷ es) = All (λ x. x.bid_id ≢ e.bid_id) es × IsDistinct es

add_score-others :
    (n : ℕ) (v : BidEvaluation) (b : Bid) (es : List BidScores)
    → v.bid_id ≢ n
    → All (λ x. x.bid_id ≢ n) es
    → All (λ x. x.bid_id ≢ n) (add_score v b es)
unfolding add_score
add_score-others n v b [] h a = (h, tt)
add_score-others n v b (e ∷ es) h a = elim (Bool-cases (e.bid_id == v.bid_id)) [
  | inl same ↦ rw same (a.0, a.1)
  | inr other ↦ rw other (a.0, add_score-others n v b es h a.1)
]

add_score-IsDistinct :
    (v : BidEvaluation) (b : Bid) (es : List BidScores)
    → IsDistinct es
    → IsDistinct (add_score v b es)
unfolding add_score
add_score-IsDistinct v b [] d = (tt, tt)
add_score-IsDistinct v b (e ∷ es) d = elim (Bool-cases (e.bid_id == v.bid_id)) [
  | inl same ↦ rw same (d.0, d.1)
  | inr other ↦
      rw other
        (add_score-others e.bid_id v b es (ground arith) d.0, add_score-IsDistinct v b es d.1)
]

group_scores-IsDistinct :
    (es : List BidScores) (vs : List (BidEvaluation × Bid))
    → IsDistinct es
    → IsDistinct (group_scores es vs)
unfolding group_scores
group_scores-IsDistinct es [] d = d
group_scores-IsDistinct es ((v, b) ∷ vs) d =
    group_scores-IsDistinct (add_score v b es) vs (add_score-IsDistinct v b es d)

-- Each entry of a list holds the scores that the list has for its bid.
entries-own :
    (f : ℕ → List ℕ) (es : List BidScores)
    → IsDistinct es
    → ((k : ℕ) → any (λ e. e.bid_id == k) es ≡ true → f k ≡ entry_scores k es)
    → All (λ e. e.scores ≡ f e.bid_id) es
entries-own f [] d h = tt
entries-own f (e ∷ es) d h = (
  ground (arith, h e.bid_id),
  entries-own f es d.1 λ k there.
      let ne : k ≢ e.bid_id = λ same. ne_of k e.bid_id es d.0 there same in ground (arith, h k, ne),
)
  where
    ne_of :
        (k n : ℕ) (es : List BidScores)
        → All (λ x. x.bid_id ≢ n) es
        → any (λ e. e.bid_id == k) es ≡ true
        → k ≢ n
    ne_of k n [] a h = cc
    ne_of k n (x ∷ xs) a h = ground (arith, a.0, ne_of k n xs a.1)

-- The entry of a bid holds a score.
abbrev HasScore : BidScores → Type 0
HasScore e = is_empty e.scores ≡ false

add_score-HasScore :
    (v : BidEvaluation) (b : Bid) (es : List BidScores)
    → All HasScore es
    → All HasScore (add_score v b es)
unfolding add_score
add_score-HasScore v b [] a = (refl, tt)
add_score-HasScore v b (e ∷ es) a = elim (Bool-cases (e.bid_id == v.bid_id)) [
  | inl same ↦ rw same (appended e.scores, a.1)
  | inr other ↦ rw other (a.0, add_score-HasScore v b es a.1)
]
  where
    appended : (xs : List ℕ) → is_empty (xs ++ (v.total_score ∷ [])) ≡ false
    appended [] = refl
    appended (x ∷ xs) = refl

group_scores-HasScore :
    (es : List BidScores) (vs : List (BidEvaluation × Bid))
    → All HasScore es
    → All HasScore (group_scores es vs)
unfolding group_scores
group_scores-HasScore es [] a = a
group_scores-HasScore es ((v, b) ∷ vs) a =
    group_scores-HasScore (add_score v b es) vs (add_score-HasScore v b es a)

-- The bid has scores, their number is the count, and the score is their sum in doubles, divided by
-- their number and rounded to cents.
abbrev pub IsAverageOf : List (BidEvaluation × Bid) → Ranking → Type 0
IsAverageOf vs r =
    let scores = scores_of r.bid_id vs in
    (is_empty scores ≡ false)
    × (r.evaluation_count ≡ length scores)
    × (r.total_score ≡ to_fixed2 (num_div (sum (map of_cents scores)) (of_nat (length scores))))

average-mean :
    (scores : List ℕ)
    → is_empty scores ≡ false
    → average scores ≡ to_fixed2 (num_div (sum (map of_cents scores)) (of_nat (length scores)))
unfolding average
average-mean [] h = ground arith
average-mean (s ∷ ss) h = refl

map-IsAverageOf :
    (vs : List (BidEvaluation × Bid)) (es : List BidScores)
    → All HasScore es
    → All (λ e. e.scores ≡ scores_of e.bid_id vs) es
    → All (IsAverageOf vs) (map to_ranking es)
unfolding to_ranking
map-IsAverageOf vs [] f a = tt
map-IsAverageOf vs (e ∷ es) f a =
    let some_score : is_empty (scores_of e.bid_id vs) ≡ false = sym (ap is_empty a.0) ∙ f.0 in
    (
      (some_score, ap length a.0, ap average a.0 ∙ average-mean (scores_of e.bid_id vs) some_score),
      map-IsAverageOf vs es f.1 a.1,
    )

-- Every ranking is of a bid with scores: it has their number, and as its score their sum in doubles,
-- divided by their number and rounded to cents.
pub rank_all-IsAverageOf :
    (vs : List (BidEvaluation × Bid)) → All (λ row. IsAverageOf vs row.1) (rank_all vs)
unfolding rank_all
rank_all-IsAverageOf vs =
    let es = group_scores [] vs in
    number_from-All (IsAverageOf vs) 1 (sort_rankings (map to_ranking es)) (
      sort_rankings-All (IsAverageOf vs) (map to_ranking es) (
        map-IsAverageOf vs es (group_scores-HasScore [] vs tt) (
          entries-own (λ k. scores_of k vs) es (group_scores-IsDistinct [] vs tt)
            (λ k h. sym (entry_scores-group k [] vs)))))

-- how many rows a bid has
abbrev count_entries : ℕ → List BidScores → ℕ
count_entries k [] = 0
count_entries k (e ∷ es) = (if e.bid_id == k then 1 else 0) + count_entries k es

abbrev count_rankings : ℕ → List Ranking → ℕ
count_rankings k [] = 0
count_rankings k (r ∷ rs) = (if r.bid_id == k then 1 else 0) + count_rankings k rs

abbrev pub count_rows_of : ℕ → List (ℕ × Ranking) → ℕ
count_rows_of k [] = 0
count_rows_of k ((_, r) ∷ rows) = (if r.bid_id == k then 1 else 0) + count_rows_of k rows

count_entries-add :
    (k : ℕ) (v : BidEvaluation) (b : Bid) (es : List BidScores)
    → count_entries k (add_score v b es) ≡ (
        if v.bid_id == k
        then (if count_entries k es == 0 then 1 else count_entries k es)
        else count_entries k es)
unfolding add_score
count_entries-add k v b [] = ground arith
count_entries-add k v b (e ∷ es) = ground (arith, count_entries-add k v b es)

count_entries-group :
    (k : ℕ) (es : List BidScores) (vs : List (BidEvaluation × Bid))
    → count_entries k (group_scores es vs) ≡ (
        if count_entries k es == 0
        then (if any (λ v. v.0.bid_id == k) vs then 1 else 0)
        else count_entries k es)
unfolding group_scores
count_entries-group k es [] = ground arith
count_entries-group k es ((v, b) ∷ vs) =
    ground (arith, count_entries-add k v b es, count_entries-group k (add_score v b es) vs)

count-map :
    (k : ℕ) (es : List BidScores) → count_rankings k (map to_ranking es) ≡ count_entries k es
unfolding to_ranking
count-map k [] = refl
count-map k (e ∷ es) = ground (arith, count-map k es)

count-insert :
    (k : ℕ) (r : Ranking) (xs : List Ranking)
    → count_rankings k (insert_ranking r xs) ≡ count_rankings k (r ∷ xs)
unfolding insert_ranking
count-insert k r [] = refl
count-insert k r (x ∷ xs) = elim (Bool-cases (before x r)) [
  | inl later ↦ rw later (ground (arith, count-insert k r xs))
  | inr first ↦ rw first refl
]

count-sort : (k : ℕ) (rs : List Ranking) → count_rankings k (sort_rankings rs) ≡ count_rankings k rs
unfolding sort_rankings
count-sort k [] = refl
count-sort k (r ∷ rs) = ground (arith, count-insert k r (sort_rankings rs), count-sort k rs)

count-number :
    (k n : ℕ) (rs : List Ranking) → count_rows_of k (number_from n rs) ≡ count_rankings k rs
unfolding number_from
count-number k n [] = refl
count-number k n (r ∷ rs) = ground (arith, count-number k (n + 1) rs)

-- Every bid with an evaluation has exactly one ranking, and no other bid has one.
pub rank_all_complete :
    (k : ℕ) (vs : List (BidEvaluation × Bid))
    → count_rows_of k (rank_all vs) ≡ (if any (λ v. v.0.bid_id == k) vs then 1 else 0)
unfolding rank_all
rank_all_complete k vs =
    let es = group_scores [] vs in
    count-number k 1 (sort_rankings (map to_ranking es))
    ∙ count-sort k (map to_ranking es)
    ∙ count-map k es
    ∙ count_entries-group k [] vs
