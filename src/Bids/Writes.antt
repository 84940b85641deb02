-- ===== src/Bids/Writes.antt =====
-- Each request of the bid service is made of steps of the sourcing process.
use enterprise_ai_procuremen.Prelude.{
  ℕ, ◌+◌, ◌≡◌, ◌≢◌, ◌⊎◌, ◌≤◌, inl, inr, refl, true, false, none, some, [], ◌∷◌, ◌++◌, is_empty,
  arith, Option-cases,
}
use enterprise_ai_procuremen.Relations.{Chain, stays, moves}
use enterprise_ai_procuremen.Store.{lookup}
use enterprise_ai_procuremen.Decimals.{to_fixed2, sum}
use enterprise_ai_procuremen.Schema.{BidStatus}
use enterprise_ai_procuremen.Database.{Surroundings, Caller}
use enterprise_ai_procuremen.Sourcing.Schema.{Rfq, RfqStatus, Bid, BidAttachment, Sourcing}
use enterprise_ai_procuremen.Sourcing.Lookup.{find_rfq, find_bid}
use enterprise_ai_procuremen.Sourcing.Process.{
  Step, bids, edits_bid, with_bid, without_bid, HasTotal,
}
use enterprise_ai_procuremen.Rfqs.Repository.{is_invited, find_vendor_invitation}
use enterprise_ai_procuremen.Bids.Repository.{
  create_bid, update_bid, delete_bid, submit_bid, withdraw_bid, find_item_bid, insert_attachment,
  rounded_total, find_active_by_rfq_and_vendor, mark_responded, count_bids,
}
use enterprise_ai_procuremen.Bids.Service.{
  CreateBidDto, UpdateBidDto, CreateBidItemDto, create, new_bid, update, edited, delete_draft,
  submit, withdraw, add_item, remove_item, add_attachment, calculate_total_cost,
}

module _ (id org : ℕ) (s : Sourcing) (b : Bid) (q : Rfq) (f : find_bid id org s ≡ some (b, q)) where
  pub found_bid : lookup id s.bids ≡ some b
  unfolding find_bid
  found_bid = ground arith

  pub found_rfq : lookup b.rfq_id s.rfqs ≡ some q
  unfolding find_bid
  found_rfq = ground arith

module _ (env : Surroundings) (caller : Caller) (dto : CreateBidDto) (s : Sourcing) where
  abbrev fresh_bid : Bid
  fresh_bid =
      new_bid caller.user_id dto
        (record { year = env.year; sequence = count_bids caller.organisation_id s + 1 })

  new_total : HasTotal fresh_bid
  unfolding rounded_total sum to_fixed2
  new_total = refl

  create_missing :
      find_rfq dto.rfq_id caller.organisation_id s ≡ none → (create env caller dto s).1 ≡ s
  unfolding create
  create_missing n = ground arith

  found_row :
      (q : Rfq)
      → find_rfq dto.rfq_id caller.organisation_id s ≡ some q
      → lookup dto.rfq_id s.rfqs ≡ some q
  unfolding find_rfq
  found_row q f = ground arith

  create_found :
      (q : Rfq)
      → find_rfq dto.rfq_id caller.organisation_id s ≡ some q
      → lookup dto.rfq_id s.rfqs ≡ some q
      → ((create env caller dto s).1 ≡ s)
        ⊎ ((lookup env.new_id s.bids ≡ none)
            × (q.status ≡ RfqStatus.published)
            × (env.now ≤ q.closing_date)
            × (is_invited dto.vendor_id q ≡ true)
            × (find_active_by_rfq_and_vendor dto.rfq_id dto.vendor_id s ≡ false)
            × ((create env caller dto s).1 ≡ with_bid env.new_id fresh_bid s))
  unfolding create create_bid find_vendor_invitation
  create_found q f e = ground arith

  pub create-Steps : Chain (Step env.now) s (create env caller dto s).1
  create-Steps = elim (Option-cases (find_rfq dto.rfq_id caller.organisation_id s)) [
    | inl n ↦ stays (create_missing n)
    | inr (q, f) ↦
        let e = found_row q f in
        elim (create_found q f e) [
          | inl same ↦ stays same
          | inr (n, p, c, i, a, t) ↦
              moves t (bids s env.new_id fresh_bid q n e p c i a refl new_total)
        ]
  ]

-- A write that keeps a draft, or nothing.
pub edit_or_stay :
    {now : ℕ} {s t : Sourcing} (id : ℕ) (b b' : Bid)
    → lookup id s.bids ≡ some b
    → b'.status ≡ b.status
    → b'.rfq_id ≡ b.rfq_id
    → b'.vendor_id ≡ b.vendor_id
    → (HasTotal b → HasTotal b')
    → (t ≡ s) ⊎ ((b.status ≡ BidStatus.draft) × (t ≡ with_bid id b' s))
    → Chain (Step now) s t
edit_or_stay id b b' l st r v total (inl same) = stays same
edit_or_stay {s} id b b' l st r v total (inr (d, t)) =
    moves t (edits_bid s id b b' l (d, ground arith, r, v, total))

module _ (env : Surroundings) (caller : Caller) (id : ℕ) (s : Sourcing)
    (n : find_bid id caller.organisation_id s ≡ none) where
  pub update_missing : (dto : UpdateBidDto) → (update caller id dto s).1 ≡ s
  unfolding update
  update_missing dto = ground arith

  pub delete_missing : (delete_draft caller id s).1 ≡ s
  unfolding delete_draft
  delete_missing = ground arith

  pub submit_missing : (submit env caller id s).1 ≡ s
  unfolding submit
  submit_missing = ground arith

  pub withdraw_missing : (withdraw env caller id s).1 ≡ s
  unfolding withdraw
  withdraw_missing = ground arith

  pub add_item_missing : (dto : CreateBidItemDto) → (add_item env caller id dto s).1 ≡ s
  unfolding add_item
  add_item_missing dto = ground arith

  pub add_attachment_missing : (a : BidAttachment) → (add_attachment caller id a s).1 ≡ s
  unfolding add_attachment
  add_attachment_missing a = ground arith

  pub remove_item_missing :
      (item_id : ℕ) → find_item_bid item_id s.bids ≡ some id → (remove_item caller item_id s).1 ≡ s
  unfolding remove_item
  remove_item_missing item_id f = ground arith

module _ (env : Surroundings) (caller : Caller) (id : ℕ) (s : Sourcing) (b : Bid) (q : Rfq)
    (f : find_bid id caller.organisation_id s ≡ some (b, q)) (e : lookup id s.bids ≡ some b)
    (g : lookup b.rfq_id s.rfqs ≡ some q) where
  pub update_found :
      (dto : UpdateBidDto)
      → ((update caller id dto s).1 ≡ s)
        ⊎ ((b.status ≡ BidStatus.draft)
            × ((update caller id dto s).1 ≡ with_bid id (edited dto b) s))
  unfolding update update_bid
  update_found dto = ground arith

  pub delete_found :
      ((delete_draft caller id s).1 ≡ s)
      ⊎ ((b.status ≡ BidStatus.draft) × ((delete_draft caller id s).1 ≡ without_bid id s))
  unfolding delete_draft delete_bid
  delete_found = ground arith

  pub submit_found :
      ((submit env caller id s).1 ≡ s)
      ⊎ ((b.status ≡ BidStatus.draft)
          × (q.status ≡ RfqStatus.published)
          × (env.now ≤ q.closing_date)
          × (is_empty b.items ≡ false)
          × ((submit env caller id s).1
              ≡ mark_responded b.rfq_id b.vendor_id env.now (
                  with_bid id
                    (record b {
                      status = BidStatus.submitted;
                      submitted_at = some env.now;
                      total_amount = to_fixed2 (calculate_total_cost b);
                    })
                    s)))
  unfolding submit submit_bid
  submit_found = ground arith

  pub withdraw_found :
      ((withdraw env caller id s).1 ≡ s)
      ⊎ ((b.status ≡ BidStatus.submitted)
          × (q.status ≢ RfqStatus.closed)
          × (q.status ≢ RfqStatus.cancelled)
          × (env.now ≤ q.closing_date)
          × ((withdraw env caller id s).1
              ≡ with_bid id (record b { status = BidStatus.withdrawn }) s))
  unfolding withdraw withdraw_bid
  withdraw_found = ground arith

  pub add_attachment_found :
      (a : BidAttachment)
      → ((add_attachment caller id a s).1 ≡ s)
        ⊎ ((b.status ≡ BidStatus.draft)
            × ((add_attachment caller id a s).1
                ≡ with_bid id (record b { attachments = b.attachments ++ (a ∷ []) }) s))
  unfolding add_attachment insert_attachment
  add_attachment_found a = ground arith
