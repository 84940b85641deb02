-- ===== src/Bids/Repository.antt =====
-- apps/api/src/bids/bid.repository.ts.
use enterprise_ai_procuremen.Prelude.{
  ℕ, Bool, not, ◌&&◌, ◌||◌, Option, none, some, List, [], ◌∷◌, ◌++◌, map, any, ◌==◌, if◌then◌else◌,
}
use enterprise_ai_procuremen.Results.{
  ok, err, Done, record_not_found, unique_violation, is_some, pure, transaction, modify, ◌>>=◌,
  ◌>>◌, ◌===◌,
}
use enterprise_ai_procuremen.Store.{
  Table, lookup, insert, erase, has_key, any_row, keep_rows, count_rows,
}
use enterprise_ai_procuremen.Decimals.{of_cents, sum, to_fixed2}
use enterprise_ai_procuremen.Schema.{BidStatus, bid_status_enum}
use enterprise_ai_procuremen.Orders.Repository.{same_number}
use enterprise_ai_procuremen.Sourcing.Schema.{
  RfqVendor, VendorInvitationStatus, Bid, BidItem, BidAttachment, Sourcing, M,
}
use enterprise_ai_procuremen.Sourcing.Lookup.{find_rfq}

-- `bidNumber` is a unique column.
unfoldable pub create_bid : ℕ → Bid → M Bid
create_bid id b s =
    if has_key id s.bids || any_row (λ c. same_number c.bid_number b.bid_number) s.bids
    then (err unique_violation, s)
    else (ok b, record s { bids = insert id b s.bids })

unfoldable pub update_bid : ℕ → (Bid → Bid) → M Bid
update_bid id change s = elim (lookup id s.bids) [
  | none ↦ (err record_not_found, s)
  | some b ↦ (ok (change b), record s { bids = insert id (change b) s.bids })
]

-- The items, the attachments, the evaluations and the award of a bid are deleted with it.
unfoldable pub delete_bid : ℕ → M Done
delete_bid id s = elim (lookup id s.bids) [
  | none ↦ (err record_not_found, s)
  | some _ ↦ (
    ok tt,
    record s {
      bids = erase id s.bids;
      evaluations = keep_rows (λ v. not (v.bid_id == id)) s.evaluations;
      awards = keep_rows (λ a. not (a.bid_id == id)) s.awards;
    },
  )
]

-- `updateMany` of the invitations of a vendor
unfoldable pub respond : ℕ → ℕ → List RfqVendor → List RfqVendor
respond vendor now [] = []
respond vendor now (v ∷ vs) =
    (if v.vendor_id == vendor
      then record v { status = VendorInvitationStatus.responded; responded_at = some now }
      else v)
    ∷ respond vendor now vs

unfoldable pub mark_responded : ℕ → ℕ → ℕ → Sourcing → Sourcing
unfolding respond
mark_responded rfq vendor now s = elim (lookup rfq s.rfqs) [
  | none ↦ s
  | some q ↦ record s {
    rfqs = insert rfq (record q { vendors = respond vendor now q.vendors }) s.rfqs;
  }
]

unfoldable pub submit_bid : ℕ → ℕ → ℕ → M Bid
unfolding update_bid mark_responded
submit_bid id total_amount now = transaction do
  bid ← update_bid id λ b. record b {
    status = BidStatus.submitted;
    submitted_at = some now;
    total_amount = total_amount;
  }
  modify (mark_responded bid.rfq_id bid.vendor_id now)
  pure bid

unfoldable pub withdraw_bid : ℕ → M Bid
unfolding update_bid
withdraw_bid id = update_bid id λ b. record b { status = BidStatus.withdrawn }

unfoldable pub insert_item : ℕ → BidItem → M Bid
unfolding update_bid
insert_item id item = update_bid id λ b. record b { items = b.items ++ (item ∷ []) }

-- the key of the bid that an item belongs to
unfoldable pub find_item_bid : ℕ → Table Bid → Option ℕ
find_item_bid item_id [] = none
find_item_bid item_id ((k, b) ∷ t) =
    if any (λ i. i.id == item_id) b.items then some k else find_item_bid item_id t

unfoldable pub remove_item_row : ℕ → List BidItem → List BidItem
remove_item_row item_id [] = []
remove_item_row item_id (i ∷ is) =
    if i.id == item_id then remove_item_row item_id is else i ∷ remove_item_row item_id is

unfoldable pub delete_item_row : ℕ → ℕ → M Bid
unfolding update_bid
delete_item_row id item_id = update_bid id λ b. record b { items = remove_item_row item_id b.items }

unfoldable pub insert_attachment : ℕ → BidAttachment → M Bid
unfolding update_bid
insert_attachment id a = update_bid id λ b. record b { attachments = b.attachments ++ (a ∷ []) }

-- the sum of the lines as the repository stores it
unfoldable pub rounded_total : List BidItem → ℕ
rounded_total items = to_fixed2 (sum (map (λ i. of_cents i.total_price) items))

unfoldable pub recalculate_total : ℕ → M Bid
unfolding update_bid
recalculate_total id = update_bid id λ b. record b { total_amount = rounded_total b.items }

unfoldable pub find_active_by_rfq_and_vendor : ℕ → ℕ → Sourcing → Bool
find_active_by_rfq_and_vendor rfq vendor s =
    any_row
      (λ b.
        (b.rfq_id == rfq)
        && (b.vendor_id == vendor)
        && ((b.status === BidStatus.draft) || (b.status === BidStatus.submitted)))
      s.bids

unfoldable pub count_bids : ℕ → Sourcing → ℕ
unfolding find_rfq
count_bids org s = count_rows (λ b. is_some (find_rfq b.rfq_id org s)) s.bids
