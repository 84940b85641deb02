-- ===== src/Sourcing/Tests.antt =====
-- A request for quotation from its creation to an award, and the theorems at it.
use enterprise_ai_procuremen.Prelude.{
  ℕ, ◌≡◌, ◌≢◌, refl, inl, none, some, [], ◌∷◌, ◌++◌, List, arith, false,
}
use enterprise_ai_procuremen.Results.{ok}
use enterprise_ai_procuremen.Relations.{Chain}
use enterprise_ai_procuremen.Store.{lookup}
use enterprise_ai_procuremen.Decimals.{
  of_nat, sum, to_fixed2, of_cents, num_eq, num_mul, num_add, nearest, scale, half_even, coarsen,
}
use enterprise_ai_procuremen.Schema.{BidStatus, procurement_manager}
use enterprise_ai_procuremen.Database.{Surroundings, Caller}
use enterprise_ai_procuremen.Samples.{administrator, surroundings, vendor}
use enterprise_ai_procuremen.Approvals.Schema.{
  ProcurementPriority, ProcurementRequest, ProcurementStatus,
}
use enterprise_ai_procuremen.Sourcing.Schema.{
  Rfq, RfqStatus, VendorInvitationStatus, Bid, Award, Sourcing,
}
use enterprise_ai_procuremen.Sourcing.Lookup.{find_bid, find_rfq, find_vendor}
use enterprise_ai_procuremen.Sourcing.Process.{Step}
use enterprise_ai_procuremen.Sourcing.Soundness.{IsSound, IsInOrder, IsGranted}
use enterprise_ai_procuremen.Sourcing.Runs.{
  Call, Request, perform, run, perform-Steps, clock_after, run-IsSound,
}
use enterprise_ai_procuremen.Sourcing.Guarantees.{
  bid-IsInOrder, award-IsGranted, active_bid_unique, submit_drift,
}
use enterprise_ai_procuremen.Rfqs.Service as Rfqs
use enterprise_ai_procuremen.Bids.Service as Bids
use enterprise_ai_procuremen.Evaluations.Service as Evaluations
use enterprise_ai_procuremen.Rfqs.Repository as RfqRows
use enterprise_ai_procuremen.Bids.Repository as BidRows
use enterprise_ai_procuremen.Evaluations.Repository as Scores
use enterprise_ai_procuremen.Approvals.Repository.{find_request}
use enterprise_ai_procuremen.Schema.Emails.{same_email}

abbrev request : ProcurementRequest
request = record {
  organisation_id = 7;
  requester_id = 71;
  title = "Chairs";
  description = "Office chairs";
  justification = "Worn out";
  department = "Operations";
  estimated_budget = 5000;
  currency = "USD";
  priority = ProcurementPriority.medium;
  status = ProcurementStatus.approved;
  required_delivery_date = 900;
  items = [];
}

abbrev start : Sourcing
start = record {
  approvals = record { users = []; requests = (5, request) ∷ []; workflows = [] };
  vendors = (2, vendor) ∷ [];
  rfqs = [];
  bids = [];
  criteria = [];
  evaluations = [];
  awards = [];
}

start-IsSound : IsSound 0 start
start-IsSound = record {
  rfqs_keyed = tt;
  bids_keyed = tt;
  awards_keyed = tt;
  totals = λ k b l. absurd (ground arith);
  in_order = λ k b l. absurd (ground arith);
  granted = λ k a l. absurd (ground arith);
  one_award = λ j k a c l m e. absurd (ground arith);
  one_active = λ j k b c l m x y e f. absurd (ground arith);
}

abbrev at : ℕ → ℕ → Surroundings
at now new_id = record surroundings { now = now; new_id = new_id }

abbrev manager : Caller
manager = record administrator { role = procurement_manager }

abbrev representative : Caller
representative = record administrator { email = "sales@acme.test" }

abbrev opening : List Call
opening =
    (
      at 100 1,
      manager,
      Request.creates_rfq (record {
        procurement_request_id = 5;
        title = "Chairs";
        description = "Five chairs";
        closing_date = 300;
      }),
    )
    ∷ (at 110 0, manager, Request.invites_vendor 1 2)
    ∷ (at 120 0, manager, Request.publishes_rfq 1)
    ∷ (
      at 200 2,
      representative,
      Request.creates_bid (record {
        rfq_id = 1;
        vendor_id = 2;
        currency = none;
        delivery_period = none;
        payment_terms = none;
        warranty_period = none;
        notes = none;
      }),
    )
    ∷ []

abbrev calls : List Call
calls =
    opening
    ++ ((
      at 210 0,
      representative,
      Request.adds_item 2 (record { description = "Chair"; quantity = 5; unit_price = 1000 }),
    )
        ∷ (at 220 0, representative, Request.submits_bid 2)
        ∷ (
          at 230 3,
          manager,
          Request.creates_evaluation (record {
            bid_id = 2;
            technical_score = of_nat 80;
            commercial_score = of_nat 70;
            compliance_score = of_nat 60;
            delivery_score = of_nat 90;
            comments = none;
          }),
        )
        ∷ (
          at 240 4,
          administrator,
          Request.awards_bid (record { bid_id = 2; award_reason = "Best" }),
        )
        ∷ [])

-- a bid of ten and twenty cents
abbrev cents : List Call
cents =
    opening
    ++ ((
      at 210 0,
      representative,
      Request.adds_item 2 (record { description = "Pen"; quantity = 1; unit_price = 10 }),
    )
        ∷ (
          at 211 0,
          representative,
          Request.adds_item 2 (record { description = "Pad"; quantity = 1; unit_price = 20 }),
        )
        ∷ [])

abbrev bid : Bid
bid = record {
  rfq_id = 1;
  vendor_id = 2;
  submitted_by_id = 70;
  bid_number = record { year = 2026; sequence = 1 };
  total_amount = 5000;
  currency = "USD";
  delivery_period = none;
  payment_terms = none;
  warranty_period = none;
  notes = none;
  status = BidStatus.awarded;
  submitted_at = some 220;
  items =
      (record {
        id = 0;
        description = "Chair";
        quantity = 5;
        unit_price = 1000;
        total_price = 5000;
      })
      ∷ [];
  attachments = [];
}

abbrev award : Award
award = record {
  bid_id = 2;
  procurement_request_id = 5;
  awarded_by_id = 70;
  award_reason = "Best";
  awarded_at = 240;
}

abbrev draft_bid : Bid
draft_bid = record bid {
  total_amount = 0;
  status = BidStatus.draft;
  submitted_at = none;
  items = [];
}

abbrev cents_bid : Bid
cents_bid = record draft_bid {
  total_amount = 30;
  items =
      (record { id = 0; description = "Pen"; quantity = 1; unit_price = 10; total_price = 10 })
      ∷ (record { id = 0; description = "Pad"; quantity = 1; unit_price = 20; total_price = 20 })
      ∷ [];
}

abbrev rfq : Rfq
rfq = record {
  procurement_request_id = 5;
  rfq_number = record { year = 2026; sequence = 1 };
  title = "Chairs";
  description = "Five chairs";
  closing_date = 300;
  status = RfqStatus.published;
  created_by_id = 70;
  vendors =
      (record {
        vendor_id = 2;
        invited_at = 110;
        responded_at = none;
        status = VendorInvitationStatus.invited;
      })
      ∷ [];
}

-- The bid and the award after the run.
awarded :
    (lookup 2 (run calls start).bids ≡ some bid) × (lookup 4 (run calls start).awards ≡ some award)
unfolding run perform Rfqs.create Rfqs.invite_vendor Rfqs.publish Bids.create Bids.add_item
    Bids.submit Evaluations.create_evaluation Evaluations.award_bid find_request find_rfq find_bid
    find_vendor same_email RfqRows.create_rfq RfqRows.find_vendor_invitation
    RfqRows.insert_invitation RfqRows.publish_rfq RfqRows.count_rfqs
    BidRows.find_active_by_rfq_and_vendor BidRows.create_bid BidRows.insert_item
    BidRows.recalculate_total BidRows.rounded_total BidRows.count_bids BidRows.submit_bid
    Bids.amounts_match Bids.calculate_line_total Bids.calculate_total_cost
    Evaluations.calculate_total_score Scores.insert_evaluation Scores.ensure_default_criteria
    Scores.has_award Scores.has_evaluations Scores.create_award Scores.award_row num_eq of_cents
    num_add num_mul sum to_fixed2 nearest scale half_even coarsen
awarded = (refl, refl)

drafted : lookup 2 (run opening start).bids ≡ some draft_bid
unfolding run perform Rfqs.create Rfqs.invite_vendor Rfqs.publish Bids.create Bids.add_item
    Bids.submit Evaluations.create_evaluation Evaluations.award_bid find_request find_rfq find_bid
    find_vendor same_email RfqRows.create_rfq RfqRows.find_vendor_invitation
    RfqRows.insert_invitation RfqRows.publish_rfq RfqRows.count_rfqs
    BidRows.find_active_by_rfq_and_vendor BidRows.create_bid BidRows.insert_item
    BidRows.recalculate_total BidRows.rounded_total BidRows.count_bids BidRows.submit_bid
    Bids.amounts_match Bids.calculate_line_total Bids.calculate_total_cost
    Evaluations.calculate_total_score Scores.insert_evaluation Scores.ensure_default_criteria
    Scores.has_award Scores.has_evaluations Scores.create_award Scores.award_row num_eq of_cents
    num_add num_mul sum to_fixed2 nearest scale half_even coarsen
drafted = refl

drifts :
    (find_bid 2 7 (run cents start) ≡ some (cents_bid, rfq))
    × (num_eq
          (of_cents (BidRows.rounded_total cents_bid.items))
          (Bids.calculate_total_cost cents_bid)
        ≡ false)
unfolding run perform Rfqs.create Rfqs.invite_vendor Rfqs.publish Bids.create Bids.add_item
    Bids.submit Evaluations.create_evaluation Evaluations.award_bid find_request find_rfq find_bid
    find_vendor same_email RfqRows.create_rfq RfqRows.find_vendor_invitation
    RfqRows.insert_invitation RfqRows.publish_rfq RfqRows.count_rfqs
    BidRows.find_active_by_rfq_and_vendor BidRows.create_bid BidRows.insert_item
    BidRows.recalculate_total BidRows.rounded_total BidRows.count_bids BidRows.submit_bid
    Bids.amounts_match Bids.calculate_line_total Bids.calculate_total_cost
    Evaluations.calculate_total_score Scores.insert_evaluation Scores.ensure_default_criteria
    Scores.has_award Scores.has_evaluations Scores.create_award Scores.award_row num_eq of_cents
    num_add num_mul sum to_fixed2 nearest scale half_even coarsen
drifts = (refl, refl)

bid-IsInOrder_example : IsInOrder (clock_after 0 calls) (run calls start) bid
bid-IsInOrder_example = bid-IsInOrder 0 calls start (omega arith) start-IsSound 2 bid awarded.0

award-IsGranted_example :
    IsGranted (run calls start) award
    × (award.procurement_request_id ≡ award.procurement_request_id → ◌≡◌ {A = ℕ} 4 4)
award-IsGranted_example =
    award-IsGranted 0 calls start (omega arith) start-IsSound 4 4 award award awarded.1 awarded.1

active_bid_unique_example : ◌≡◌ {A = ℕ} 2 2
active_bid_unique_example =
    active_bid_unique 0 opening start (omega arith) start-IsSound 2 2 draft_bid draft_bid drafted
      drafted (inl refl) (inl refl) refl refl

perform-Steps_example :
    Chain (Step 120) start (perform (at 120 0) manager (Request.publishes_rfq 1) start)
perform-Steps_example = perform-Steps (at 120 0) manager (Request.publishes_rfq 1) start

submit_drift_example :
    ((Bids.submit (at 220 0) representative 2 (run cents start)).1 ≡ run cents start)
    × ((x : Bid) → (Bids.submit (at 220 0) representative 2 (run cents start)).0 ≢ ok x)
submit_drift_example =
    submit_drift (at 220 0) representative 2 (run cents start) (clock_after 0 cents) cents_bid rfq
      (run-IsSound 0 cents start (omega arith) start-IsSound) drifts.0 drifts.1
