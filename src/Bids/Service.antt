-- ===== src/Bids/Service.antt =====
-- apps/api/src/bids/bids.service.ts. `mapBid` is left out: a method returns the row. The foreign key
-- of a bid makes its vendor present.
use enterprise_ai_procuremen.Prelude.{
  ℕ, ◌+◌, Bool, ◌||◌, Option, none, [], map, String, is_empty, ltb,
}
use enterprise_ai_procuremen.Results.{
  Done, bad_request, forbidden, not_found, conflict, record_not_found, pure, gets, or_throw,
  throw_if, throw_unless, ◌>>=◌, ◌>>◌, ◌===◌, or_else, or_keep,
}
use enterprise_ai_procuremen.Store.{lookup}
use enterprise_ai_procuremen.Decimals.{Double, of_nat, of_cents, num_mul, num_eq, to_fixed2, sum}
use enterprise_ai_procuremen.Schema.{BidStatus, DocumentNumber, Vendor, bid_status_enum}
use enterprise_ai_procuremen.Schema.Emails.{same_email}
use enterprise_ai_procuremen.Database.{Surroundings, Caller}
use enterprise_ai_procuremen.Sourcing.Schema.{
  Rfq, RfqStatus, rfq_status_enum, Bid, BidAttachment, M,
}
use enterprise_ai_procuremen.Sourcing.Lookup.{find_rfq, find_bid, find_vendor}
use enterprise_ai_procuremen.Rfqs.Repository.{find_vendor_invitation}
use enterprise_ai_procuremen.Bids.Repository.{
  create_bid, update_bid, delete_bid, submit_bid, withdraw_bid, insert_item, find_item_bid,
  delete_item_row, insert_attachment, recalculate_total, find_active_by_rfq_and_vendor, count_bids,
}

pub record CreateBidDto : Type 0 where
  pub rfq_id : ℕ
  pub vendor_id : ℕ
  pub currency : Option String
  pub delivery_period : Option String
  pub payment_terms : Option String
  pub warranty_period : Option String
  pub notes : Option String

pub record UpdateBidDto : Type 0 where
  pub currency : Option String
  pub delivery_period : Option String
  pub payment_terms : Option String
  pub warranty_period : Option String
  pub notes : Option String

pub record CreateBidItemDto : Type 0 where
  pub description : String
  pub quantity : ℕ
  pub unit_price : ℕ

unfoldable pub get_bid_or_throw : ℕ → ℕ → M (Bid × Rfq)
get_bid_or_throw org id = do or_throw (← gets (find_bid id org)) (not_found "Bid not found")

unfoldable pub assert_vendor_representative : String → String → M Done
assert_vendor_representative user_email vendor_email =
    throw_unless (same_email user_email vendor_email)
      (forbidden "Only the invited vendor representative can perform this action")

-- the `vendor` relation of a bid
unfoldable pub bid_vendor : Bid → M Vendor
bid_vendor bid = do or_throw (← gets λ s. lookup bid.vendor_id s.vendors) record_not_found

unfoldable pub assert_draft_owner : String → Bid → M Done
unfolding assert_vendor_representative bid_vendor
assert_draft_owner user_email bid = do
  throw_unless (bid.status === BidStatus.draft) (bad_request "Only draft bids can be modified")
  vendor ← bid_vendor bid
  assert_vendor_representative user_email vendor.email

unfoldable pub assert_rfq_open : ℕ → Rfq → M Done
assert_rfq_open now rfq = do
  throw_unless (rfq.status === RfqStatus.published)
      (bad_request "RFQ is not open for bid submission")
  throw_if (ltb rfq.closing_date now) (bad_request "RFQ closing date has passed")

abbrev pub is_rfq_closed : ℕ → Rfq → Bool
is_rfq_closed now rfq =
    (rfq.status === RfqStatus.closed)
    || (rfq.status === RfqStatus.cancelled)
    || ltb rfq.closing_date now

unfoldable pub generate_bid_number : ℕ → ℕ → M DocumentNumber
generate_bid_number year org = gets λ s. record { year = year; sequence = count_bids org s + 1 }

unfoldable pub assert_vendor_invited : ℕ → ℕ → M Done
assert_vendor_invited rfq_id vendor_id = do
  invitation ← gets (find_vendor_invitation rfq_id vendor_id)
  throw_unless invitation (forbidden "Vendor is not invited to this RFQ")

abbrev pub new_bid : ℕ → CreateBidDto → DocumentNumber → Bid
new_bid user dto number = record {
  rfq_id = dto.rfq_id;
  vendor_id = dto.vendor_id;
  submitted_by_id = user;
  bid_number = number;
  total_amount = 0;
  currency = or_else dto.currency "USD";
  delivery_period = dto.delivery_period;
  payment_terms = dto.payment_terms;
  warranty_period = dto.warranty_period;
  notes = dto.notes;
  status = BidStatus.draft;
  submitted_at = none;
  items = [];
  attachments = [];
}

unfoldable pub create : Surroundings → Caller → CreateBidDto → M Bid
unfolding assert_vendor_representative assert_vendor_invited generate_bid_number
create env caller dto = do
  rfq ← or_throw (← gets (find_rfq dto.rfq_id caller.organisation_id)) (not_found "RFQ not found")
  throw_unless (rfq.status === RfqStatus.published)
      (bad_request "Bids can only be created for published RFQs")
  throw_if (ltb rfq.closing_date env.now) (bad_request "RFQ closing date has passed")
  vendor ←
      or_throw (← gets (find_vendor dto.vendor_id caller.organisation_id))
        (not_found "Vendor not found")
  assert_vendor_representative caller.email vendor.email
  assert_vendor_invited dto.rfq_id dto.vendor_id
  existing ← gets (find_active_by_rfq_and_vendor dto.rfq_id dto.vendor_id)
  throw_if existing (conflict "An active bid already exists for this vendor on this RFQ")
  number ← generate_bid_number env.year caller.organisation_id
  create_bid env.new_id (new_bid caller.user_id dto number)

abbrev pub edited : UpdateBidDto → Bid → Bid
edited dto b = record b {
  currency = or_else dto.currency b.currency;
  delivery_period = or_keep dto.delivery_period b.delivery_period;
  payment_terms = or_keep dto.payment_terms b.payment_terms;
  warranty_period = or_keep dto.warranty_period b.warranty_period;
  notes = or_keep dto.notes b.notes;
}

unfoldable pub update : Caller → ℕ → UpdateBidDto → M Bid
unfolding get_bid_or_throw assert_draft_owner
update caller id dto = do
  (bid, _) ← get_bid_or_throw caller.organisation_id id
  assert_draft_owner caller.email bid
  update_bid id (edited dto)

unfoldable pub delete_draft : Caller → ℕ → M Done
unfolding get_bid_or_throw assert_draft_owner
delete_draft caller id = do
  (bid, _) ← get_bid_or_throw caller.organisation_id id
  assert_draft_owner caller.email bid
  delete_bid id

unfoldable pub calculate_total_cost : Bid → Double
calculate_total_cost bid = sum (map (λ i. of_cents i.total_price) bid.items)

unfoldable pub amounts_match : ℕ → Double → Bool
amounts_match total_amount total_cost = num_eq (of_cents total_amount) total_cost

unfoldable pub submit : Surroundings → Caller → ℕ → M Bid
unfolding get_bid_or_throw assert_draft_owner assert_rfq_open
submit env caller id = do
  (bid, rfq) ← get_bid_or_throw caller.organisation_id id
  assert_draft_owner caller.email bid
  assert_rfq_open env.now rfq
  throw_if (is_empty bid.items) (bad_request "Cannot submit a bid with no line items")
  throw_unless (amounts_match bid.total_amount (calculate_total_cost bid))
      (bad_request "Total bid amount must equal the sum of bid item totals")
  submit_bid id (to_fixed2 (calculate_total_cost bid)) env.now

unfoldable pub withdraw : Surroundings → Caller → ℕ → M Bid
unfolding get_bid_or_throw bid_vendor assert_vendor_representative
withdraw env caller id = do
  (bid, rfq) ← get_bid_or_throw caller.organisation_id id
  vendor ← bid_vendor bid
  assert_vendor_representative caller.email vendor.email
  throw_unless (bid.status === BidStatus.submitted)
      (bad_request "Only submitted bids can be withdrawn")
  throw_if (is_rfq_closed env.now rfq)
      (bad_request "Cannot withdraw a bid after the RFQ has closed")
  withdraw_bid id

-- `Number((quantity * unitPrice).toFixed(2))`
unfoldable pub calculate_line_total : ℕ → ℕ → ℕ
calculate_line_total quantity unit_price =
    to_fixed2 (num_mul (of_nat quantity) (of_cents unit_price))

unfoldable pub add_item : Surroundings → Caller → ℕ → CreateBidItemDto → M Bid
unfolding get_bid_or_throw assert_draft_owner
add_item env caller id dto = do
  (bid, _) ← get_bid_or_throw caller.organisation_id id
  assert_draft_owner caller.email bid
  insert_item id (record {
    id = env.new_item_id 0;
    description = dto.description;
    quantity = dto.quantity;
    unit_price = dto.unit_price;
    total_price = calculate_line_total dto.quantity dto.unit_price;
  })
  recalculate_total id

unfoldable pub remove_item : Caller → ℕ → M Done
unfolding get_bid_or_throw assert_draft_owner
remove_item caller item_id = do
  id ← or_throw (← gets λ s. find_item_bid item_id s.bids) (not_found "Bid item not found")
  (bid, _) ← get_bid_or_throw caller.organisation_id id
  assert_draft_owner caller.email bid
  delete_item_row id item_id
  recalculate_total id
  pure tt

unfoldable pub add_attachment : Caller → ℕ → BidAttachment → M (Bid × Rfq)
unfolding get_bid_or_throw assert_draft_owner
add_attachment caller id attachment = do
  (bid, _) ← get_bid_or_throw caller.organisation_id id
  assert_draft_owner caller.email bid
  insert_attachment id attachment
  get_bid_or_throw caller.organisation_id id
