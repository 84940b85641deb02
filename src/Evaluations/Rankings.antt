-- ===== src/Evaluations/Rankings.antt =====
-- `getRankings` of apps/api/src/bid-evaluations/bid-evaluation.service.ts.
use enterprise_ai_procuremen.Prelude.{
  ℕ, ◌+◌, Bool, ◌&&◌, ◌||◌, List, [], ◌∷◌, ◌++◌, map, length, ltb, ◌==◌, if◌then◌else◌,
}
use enterprise_ai_procuremen.Results.{not_found, pure, gets, or_throw, ◌>>=◌, ◌>>◌}
use enterprise_ai_procuremen.Decimals.{of_nat, of_cents, num_div, sum, to_fixed2}
use enterprise_ai_procuremen.Approvals.Repository.{find_request}
use enterprise_ai_procuremen.Schema.{DocumentNumber}
use enterprise_ai_procuremen.Sourcing.Schema.{Bid, BidEvaluation, M}
use enterprise_ai_procuremen.Evaluations.Repository.{find_evaluations_by_procurement_request}

-- a value of the map `bidScores`, whose key is `bid_id`
pub record BidScores : Type 0 where
  pub bid_id : ℕ
  pub bid_number : DocumentNumber
  pub vendor_id : ℕ
  pub total_amount : ℕ
  pub scores : List ℕ

pub record Ranking : Type 0 where
  pub bid_id : ℕ
  pub bid_number : DocumentNumber
  pub vendor_id : ℕ
  pub total_score : ℕ
  pub total_amount : ℕ
  pub evaluation_count : ℕ

-- the score at the end of its bid's entry, or a new entry at the end of the map
unfoldable pub add_score : BidEvaluation → Bid → List BidScores → List BidScores
add_score v b [] =
    record {
      bid_id = v.bid_id;
      bid_number = b.bid_number;
      vendor_id = b.vendor_id;
      total_amount = b.total_amount;
      scores = v.total_score ∷ [];
    }
    ∷ []
add_score v b (e ∷ es) =
    if e.bid_id == v.bid_id
    then record e { scores = e.scores ++ (v.total_score ∷ []) } ∷ es
    else e ∷ add_score v b es

unfoldable pub group_scores : List BidScores → List (BidEvaluation × Bid) → List BidScores
unfolding add_score
group_scores scores [] = scores
group_scores scores ((v, b) ∷ vs) = group_scores (add_score v b scores) vs

unfoldable pub average : List ℕ → ℕ
average [] = 0
average (v ∷ vs) = to_fixed2 (num_div (sum (map of_cents (v ∷ vs))) (of_nat (length (v ∷ vs))))

unfoldable pub to_ranking : BidScores → Ranking
unfolding average
to_ranking e = record {
  bid_id = e.bid_id;
  bid_number = e.bid_number;
  vendor_id = e.vendor_id;
  total_score = average e.scores;
  total_amount = e.total_amount;
  evaluation_count = length e.scores;
}

-- The comparison function of the sort answers a negative number: a higher score, or the same score
-- for a lower amount.
unfoldable pub before : Ranking → Ranking → Bool
before a b =
    ltb b.total_score a.total_score
    || ((a.total_score == b.total_score) && ltb a.total_amount b.total_amount)

-- `sort` is stable: an element goes ahead of the later ones that are not before it.
unfoldable pub insert_ranking : Ranking → List Ranking → List Ranking
unfolding before
insert_ranking r [] = r ∷ []
insert_ranking r (x ∷ xs) = if before x r then x ∷ insert_ranking r xs else r ∷ x ∷ xs

unfoldable pub sort_rankings : List Ranking → List Ranking
unfolding insert_ranking
sort_rankings [] = []
sort_rankings (r ∷ rs) = insert_ranking r (sort_rankings rs)

unfoldable pub number_from : ℕ → List Ranking → List (ℕ × Ranking)
number_from n [] = []
number_from n (r ∷ rs) = (n, r) ∷ number_from (n + 1) rs

unfoldable pub rank_all : List (BidEvaluation × Bid) → List (ℕ × Ranking)
unfolding group_scores to_ranking sort_rankings number_from
rank_all evaluations = number_from 1 (sort_rankings (map to_ranking (group_scores [] evaluations)))

unfoldable pub get_rankings : ℕ → ℕ → M (List (ℕ × Ranking))
unfolding rank_all
get_rankings org request_id = do
  or_throw (← gets λ s. find_request request_id org s.approvals)
      (not_found "Procurement request not found")
  evaluations ← gets (find_evaluations_by_procurement_request request_id org)
  pure (rank_all evaluations)
