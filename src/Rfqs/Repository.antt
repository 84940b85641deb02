-- ===== src/Rfqs/Repository.antt =====
-- apps/api/src/rfqs/rfq.repository.ts.
use enterprise_ai_procuremen.Prelude.{
  ℕ, Bool, not, true, false, ◌||◌, none, some, [], ◌∷◌, ◌++◌, any, ◌==◌, if◌then◌else◌,
}
use enterprise_ai_procuremen.Results.{ok, err, Done, record_not_found, unique_violation, is_some}
use enterprise_ai_procuremen.Store.{
  Table, lookup, insert, erase, has_key, any_row, keep_rows, count_rows,
}
use enterprise_ai_procuremen.Orders.Repository.{same_number}
use enterprise_ai_procuremen.Approvals.Repository.{find_request}
use enterprise_ai_procuremen.Sourcing.Schema.{
  Rfq, RfqStatus, RfqVendor, VendorInvitationStatus, Bid, Sourcing, M,
}

-- `rfqNumber` is a unique column.
unfoldable pub create_rfq : ℕ → Rfq → M Rfq
create_rfq id q s =
    if has_key id s.rfqs || any_row (λ p. same_number p.rfq_number q.rfq_number) s.rfqs
    then (err unique_violation, s)
    else (ok q, record s { rfqs = insert id q s.rfqs })

unfoldable pub update_rfq : ℕ → (Rfq → Rfq) → M Rfq
update_rfq id change s = elim (lookup id s.rfqs) [
  | none ↦ (err record_not_found, s)
  | some q ↦ (ok (change q), record s { rfqs = insert id (change q) s.rfqs })
]

-- The row of a bid is there, and belongs to another request for quotation than `id`.
abbrev pub answers_other : ℕ → Table Bid → ℕ → Bool
answers_other id bids bid_id = elim (lookup bid_id bids) [
  | none ↦ true
  | some b ↦ not (b.rfq_id == id)
]

-- The invitations, the bids and what belongs to these are deleted with the row.
unfoldable pub delete_rfq : ℕ → M Done
delete_rfq id s = elim (lookup id s.rfqs) [
  | none ↦ (err record_not_found, s)
  | some _ ↦ (
    ok tt,
    record s {
      rfqs = erase id s.rfqs;
      bids = keep_rows (λ b. not (b.rfq_id == id)) s.bids;
      evaluations = keep_rows (λ v. answers_other id s.bids v.bid_id) s.evaluations;
      awards = keep_rows (λ a. answers_other id s.bids a.bid_id) s.awards;
    },
  )
]

unfoldable pub publish_rfq : ℕ → M Rfq
unfolding update_rfq
publish_rfq id = update_rfq id λ q. record q { status = RfqStatus.published }

unfoldable pub close_rfq : ℕ → M Rfq
unfolding update_rfq
close_rfq id = update_rfq id λ q. record q { status = RfqStatus.closed }

unfoldable pub cancel_rfq : ℕ → M Rfq
unfolding update_rfq
cancel_rfq id = update_rfq id λ q. record q { status = RfqStatus.cancelled }

abbrev pub is_invited : ℕ → Rfq → Bool
is_invited vendor q = any (λ v. v.vendor_id == vendor) q.vendors

abbrev pub new_invitation : ℕ → ℕ → RfqVendor
new_invitation vendor now = record {
  vendor_id = vendor;
  invited_at = now;
  responded_at = none;
  status = VendorInvitationStatus.invited;
}

-- The pair of `rfqId` and `vendorId` is unique.
unfoldable pub insert_invitation : ℕ → ℕ → ℕ → M Done
insert_invitation id vendor now s = elim (lookup id s.rfqs) [
  | none ↦ (err record_not_found, s)
  | some q ↦ if is_invited vendor q then (err unique_violation, s) else (
    ok tt,
    record s {
      rfqs =
          insert id (record q { vendors = q.vendors ++ (new_invitation vendor now ∷ []) }) s.rfqs;
    },
  )
]

unfoldable pub find_vendor_invitation : ℕ → ℕ → Sourcing → Bool
find_vendor_invitation id vendor s = elim (lookup id s.rfqs) [
  | none ↦ false
  | some q ↦ is_invited vendor q
]

unfoldable pub count_rfqs : ℕ → Sourcing → ℕ
unfolding find_request
count_rfqs org s =
    count_rows (λ q. is_some (find_request q.procurement_request_id org s.approvals)) s.rfqs
