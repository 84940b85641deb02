-- ===== src/Evaluations/Tests.antt =====
-- Three evaluations of two bids, and the theorems at them.
use enterprise_ai_procuremen.Prelude.{◌≡◌, refl, none, [], ◌∷◌, List, All, any, ◌==◌, if◌then◌else◌}
use enterprise_ai_procuremen.Decimals.{
  of_nat, of_cents, num_div, num_add, sum, to_fixed2, nearest, scale, half_even, coarsen,
}
use enterprise_ai_procuremen.Schema.{BidStatus}
use enterprise_ai_procuremen.Sourcing.Schema.{Bid, BidEvaluation}
use enterprise_ai_procuremen.Evaluations.Rankings.{rank_all, average, before}
use enterprise_ai_procuremen.Evaluations.Order.{IsRanked, rank_all-IsRanked}
use enterprise_ai_procuremen.Evaluations.Averages.{
  IsAverageOf, rank_all-IsAverageOf, count_rows_of, rank_all_complete,
}

abbrev bid : Bid
bid = record {
  rfq_id = 1;
  vendor_id = 2;
  submitted_by_id = 70;
  bid_number = record { year = 2026; sequence = 1 };
  total_amount = 5000;
  currency = "USD";
  delivery_period = none;
  payment_terms = none;
  warranty_period = none;
  notes = none;
  status = BidStatus.submitted;
  submitted_at = none;
  items = [];
  attachments = [];
}

abbrev cheaper : Bid
cheaper = record bid { vendor_id = 3; total_amount = 4000 }

abbrev evaluation : BidEvaluation
evaluation = record {
  bid_id = 2;
  evaluator_id = 70;
  technical_score = of_nat 80;
  commercial_score = of_nat 70;
  compliance_score = of_nat 60;
  delivery_score = of_nat 90;
  total_score = 30000;
  comments = none;
}

abbrev evaluations : List (BidEvaluation × Bid)
evaluations =
    (record evaluation { total_score = 29000 }, bid)
    ∷ (record evaluation { bid_id = 3 }, cheaper)
    ∷ (record evaluation { evaluator_id = 71; total_score = 31000 }, bid)
    ∷ []

-- Of two bids with the score 300 the cheaper one comes first.
tie :
    rank_all evaluations
    ≡ (
      1,
      record {
        bid_id = 3;
        bid_number = record { year = 2026; sequence = 1 };
        vendor_id = 3;
        total_score = 30000;
        total_amount = 4000;
        evaluation_count = 1;
      },
    )
      ∷ (
        2,
        record {
          bid_id = 2;
          bid_number = record { year = 2026; sequence = 1 };
          vendor_id = 2;
          total_score = 30000;
          total_amount = 5000;
          evaluation_count = 2;
        },
      )
      ∷ []
unfolding rank_all average before of_cents num_div num_add sum to_fixed2 nearest scale half_even
    coarsen
tie = refl

rank_all-IsRanked_example : IsRanked 1 (rank_all evaluations)
rank_all-IsRanked_example = rank_all-IsRanked evaluations

rank_all-IsAverageOf_example : All (λ row. IsAverageOf evaluations row.1) (rank_all evaluations)
rank_all-IsAverageOf_example = rank_all-IsAverageOf evaluations

rank_all_complete_example :
    count_rows_of 3 (rank_all evaluations)
    ≡ (if any (λ v. v.0.bid_id == 3) evaluations then 1 else 0)
rank_all_complete_example = rank_all_complete 3 evaluations
