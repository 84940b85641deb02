-- ===== src/Sourcing/Guarantees.antt =====
-- What the sourcing services promise over any requests, by any callers.
use enterprise_ai_procuremen.Prelude.{ℕ, ◌≡◌, ◌≢◌, false, some, List, arith}
use enterprise_ai_procuremen.Results.{ok}
use enterprise_ai_procuremen.Store.{lookup}
use enterprise_ai_procuremen.Decimals.{num_eq, of_cents}
use enterprise_ai_procuremen.Database.{Surroundings, Caller}
use enterprise_ai_procuremen.Sourcing.Schema.{Rfq, Bid, Award, Sourcing}
use enterprise_ai_procuremen.Sourcing.Lookup.{find_bid}
use enterprise_ai_procuremen.Sourcing.Soundness.{IsSound, IsActive, IsInOrder, IsGranted}
use enterprise_ai_procuremen.Sourcing.Runs.{Call, IsTimely, clock_after, run, run-IsSound}
use enterprise_ai_procuremen.Bids.Repository.{rounded_total}
use enterprise_ai_procuremen.Bids.Service.{submit, calculate_total_cost, amounts_match}
use enterprise_ai_procuremen.Bids.Writes.{found_bid}

module _ (now : ℕ) (calls : List Call) (s : Sourcing) (timely : IsTimely now calls)
    (v : IsSound now s) where
  -- Over any requests by any callers under a clock that does not run backwards, from sound tables, the
  -- request for quotation of each bid is there, is no draft, and invited the bid's vendor; and a bid
  -- that is no draft was submitted at a time in the past and no later than the closing date.
  pub bid-IsInOrder :
      (k : ℕ) (b : Bid)
      → lookup k (run calls s).bids ≡ some b
      → IsInOrder (clock_after now calls) (run calls s) b
  bid-IsInOrder k b l = (run-IsSound now calls s timely v).in_order k b l

  -- Over any such requests from sound tables, the bid of each award has the status awarded, has an
  -- evaluation, and answers a request for quotation of the awarded procurement request; and no
  -- procurement request has two awards.
  pub award-IsGranted :
      (j k : ℕ) (a c : Award)
      → lookup j (run calls s).awards ≡ some a
      → lookup k (run calls s).awards ≡ some c
      → IsGranted (run calls s) a × (a.procurement_request_id ≡ c.procurement_request_id → j ≡ k)
  award-IsGranted j k a c la lc =
      let after = run-IsSound now calls s timely v in
      (after.granted j a la, after.one_award j k a c la lc)

  -- Over any such requests from sound tables, a vendor has at most one bid that is a draft or
  -- submitted for each request for quotation.
  pub active_bid_unique :
      (j k : ℕ) (b c : Bid)
      → lookup j (run calls s).bids ≡ some b
      → lookup k (run calls s).bids ≡ some c
      → IsActive b
      → IsActive c
      → b.rfq_id ≡ c.rfq_id
      → b.vendor_id ≡ c.vendor_id
      → j ≡ k
  active_bid_unique = (run-IsSound now calls s timely v).one_active

module _ (env : Surroundings) (caller : Caller) (id : ℕ) (s : Sourcing) where
  submit_mismatch :
      (b : Bid) (q : Rfq)
      → find_bid id caller.organisation_id s ≡ some (b, q)
      → amounts_match b.total_amount (calculate_total_cost b) ≡ false
      → ((submit env caller id s).1 ≡ s) × ((x : Bid) → (submit env caller id s).0 ≢ ok x)
  unfolding submit
  submit_mismatch b q f m = (ground arith, λ x. ground arith)

  -- In sound tables, a bid of the caller's organisation whose sum of lines in doubles is not the double
  -- of its rounding to cents cannot be submitted: the request fails and writes nothing.
  pub submit_drift :
      (now : ℕ) (b : Bid) (q : Rfq)
      → IsSound now s
      → find_bid id caller.organisation_id s ≡ some (b, q)
      → num_eq (of_cents (rounded_total b.items)) (calculate_total_cost b) ≡ false
      → ((submit env caller id s).1 ≡ s) × ((x : Bid) → (submit env caller id s).0 ≢ ok x)
  unfolding amounts_match calculate_total_cost
  submit_drift now b q v f m =
      submit_mismatch b q f
        (rw (v.totals id b (found_bid id caller.organisation_id s b q f), amounts_match) m)
