-- ===== src/Sourcing/Lookup.antt =====
-- The queries by key of the sourcing repositories. A row belongs to the organisation of the
-- procurement request that its relations lead to.
use enterprise_ai_procuremen.Prelude.{ℕ, Option, none, some}
use enterprise_ai_procuremen.Store.{lookup}
use enterprise_ai_procuremen.Schema.{Vendor}
use enterprise_ai_procuremen.Orders.Repository.{of_organisation}
use enterprise_ai_procuremen.Approvals.Repository.{find_request}
use enterprise_ai_procuremen.Sourcing.Schema.{Rfq, Bid, BidEvaluation, Sourcing}

unfoldable pub find_vendor : ℕ → ℕ → Sourcing → Option Vendor
find_vendor id org s = of_organisation (λ v. v.organisation_id) org (lookup id s.vendors)

unfoldable pub find_rfq : ℕ → ℕ → Sourcing → Option Rfq
unfolding find_request
find_rfq id org s = elim (lookup id s.rfqs) [
  | none ↦ none
  | some q ↦ elim (find_request q.procurement_request_id org s.approvals) [
    | none ↦ none
    | some _ ↦ some q
  ]
]

-- a bid with the request for quotation that it answers
unfoldable pub find_bid : ℕ → ℕ → Sourcing → Option (Bid × Rfq)
unfolding find_rfq
find_bid id org s = elim (lookup id s.bids) [
  | none ↦ none
  | some b ↦ elim (find_rfq b.rfq_id org s) [ none ↦ none | some q ↦ some (b, q) ]
]

-- an evaluation with its bid
unfoldable pub find_evaluation : ℕ → ℕ → Sourcing → Option (BidEvaluation × Bid)
unfolding find_bid
find_evaluation id org s = elim (lookup id s.evaluations) [
  | none ↦ none
  | some v ↦ elim (find_bid v.bid_id org s) [ none ↦ none | some (b, _) ↦ some (v, b) ]
]
