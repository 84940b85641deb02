-- ===== src/Bids/Items.antt =====
-- The items of a draft bid, and the requests of the bid service as steps of the sourcing process.
use enterprise_ai_procuremen.Prelude.{
  ℕ, ◌≡◌, ◌⊎◌, inl, inr, refl, none, some, List, [], ◌∷◌, ◌++◌, arith, Option-cases,
}
use enterprise_ai_procuremen.Relations.{Chain, stays, moves}
use enterprise_ai_procuremen.Store.{lookup, lookup-insert_self, insert-insert}
use enterprise_ai_procuremen.Decimals.{to_fixed2}
use enterprise_ai_procuremen.Schema.{BidStatus}
use enterprise_ai_procuremen.Database.{Surroundings, Caller}
use enterprise_ai_procuremen.Sourcing.Schema.{Rfq, Bid, BidItem, BidAttachment, Sourcing}
use enterprise_ai_procuremen.Sourcing.Lookup.{find_bid}
use enterprise_ai_procuremen.Sourcing.Process.{Step, removes_bid, submits, withdraws, with_bid}
use enterprise_ai_procuremen.Bids.Repository.{
  insert_item, find_item_bid, delete_item_row, remove_item_row, recalculate_total, rounded_total,
}
use enterprise_ai_procuremen.Bids.Service.{
  UpdateBidDto, CreateBidItemDto, update, edited, delete_draft, submit, withdraw, add_item,
  remove_item, add_attachment, calculate_line_total, calculate_total_cost,
}
use enterprise_ai_procuremen.Bids.Writes.{
  found_bid, found_rfq, edit_or_stay, update_missing, delete_missing, submit_missing,
  withdraw_missing, add_item_missing, remove_item_missing, add_attachment_missing, update_found,
  delete_found, submit_found, withdraw_found, add_attachment_found,
}

-- a bid with other items, and then with their total
abbrev pub with_items : List BidItem → Bid → Bid
with_items items b = record b { items = items }

abbrev pub totalled : Bid → Bid
totalled b = record b { total_amount = rounded_total b.items }

abbrev pub new_item : Surroundings → CreateBidItemDto → BidItem
new_item env dto = record {
  id = env.new_item_id 0;
  description = dto.description;
  quantity = dto.quantity;
  unit_price = dto.unit_price;
  total_price = calculate_line_total dto.quantity dto.unit_price;
}

module _ (env : Surroundings) (caller : Caller) (id : ℕ) (s : Sourcing) (b : Bid) (q : Rfq)
    (f : find_bid id caller.organisation_id s ≡ some (b, q)) (e : lookup id s.bids ≡ some b) where
  add_item_found :
      (dto : CreateBidItemDto)
      → let b' = with_items (b.items ++ (new_item env dto ∷ [])) b in
        ((add_item env caller id dto s).1 ≡ s)
        ⊎ ((b.status ≡ BidStatus.draft)
            × ((add_item env caller id dto s).1 ≡ with_bid id (totalled b') s))
  unfolding add_item insert_item recalculate_total
  add_item_found dto =
      let b' = with_items (b.items ++ (new_item env dto ∷ [])) b in
      ground (arith, lookup-insert_self id b' s.bids, insert-insert id b' (totalled b') s.bids)

  remove_item_found :
      (item_id : ℕ)
      → find_item_bid item_id s.bids ≡ some id
      → let b' = with_items (remove_item_row item_id b.items) b in
        ((remove_item caller item_id s).1 ≡ s)
        ⊎ ((b.status ≡ BidStatus.draft)
            × ((remove_item caller item_id s).1 ≡ with_bid id (totalled b') s))
  unfolding remove_item delete_item_row recalculate_total
  remove_item_found item_id h =
      let b' = with_items (remove_item_row item_id b.items) b in
      ground (arith, lookup-insert_self id b' s.bids, insert-insert id b' (totalled b') s.bids)

-- What a submission stores is the rounded sum of the lines.
pub cost-total : (b : Bid) → to_fixed2 (calculate_total_cost b) ≡ rounded_total b.items
unfolding calculate_total_cost rounded_total
cost-total b = refl

module _ (env : Surroundings) (caller : Caller) (id : ℕ) (s : Sourcing) where
  -- Splits on whether the caller's organisation has the bid.
  by_bid :
      {t : Sourcing}
      → (find_bid id caller.organisation_id s ≡ none → t ≡ s)
      → ((b : Bid) (q : Rfq)
          → find_bid id caller.organisation_id s ≡ some (b, q)
          → lookup id s.bids ≡ some b
          → lookup b.rfq_id s.rfqs ≡ some q
          → Chain (Step env.now) s t)
      → Chain (Step env.now) s t
  by_bid missing found = elim (Option-cases (find_bid id caller.organisation_id s)) [
    | inl n ↦ stays (missing n)
    | inr ((b, q), f) ↦
        found b q f (found_bid id caller.organisation_id s b q f)
          (found_rfq id caller.organisation_id s b q f)
  ]

  pub update-Steps : (dto : UpdateBidDto) → Chain (Step env.now) s (update caller id dto s).1
  update-Steps dto =
      by_bid (λ n. update_missing env caller id s n dto)
        λ b q f e g.
          edit_or_stay id b (edited dto b) e refl refl refl (λ h. h)
            (update_found env caller id s b q f e g dto)

  pub delete_draft-Steps : Chain (Step env.now) s (delete_draft caller id s).1
  delete_draft-Steps =
      by_bid (λ n. delete_missing env caller id s n)
        λ b q f e g. elim (delete_found env caller id s b q f e g) [
          | inl same ↦ stays same
          | inr (d, t) ↦ moves t (removes_bid s id b e d)
        ]

  pub submit-Steps : Chain (Step env.now) s (submit env caller id s).1
  submit-Steps =
      by_bid (λ n. submit_missing env caller id s n)
        λ b q f e g. elim (submit_found env caller id s b q f e g) [
          | inl same ↦ stays same
          | inr (d, p, c, i, t) ↦ moves t (submits s id b q _ e d g p c i (cost-total b))
        ]

  pub withdraw-Steps : Chain (Step env.now) s (withdraw env caller id s).1
  withdraw-Steps =
      by_bid (λ n. withdraw_missing env caller id s n)
        λ b q f e g. elim (withdraw_found env caller id s b q f e g) [
          | inl same ↦ stays same
          | inr (d, nc, nx, c, t) ↦ moves t (withdraws s id b q e d g nc nx c)
        ]

  pub add_item-Steps :
      (dto : CreateBidItemDto) → Chain (Step env.now) s (add_item env caller id dto s).1
  add_item-Steps dto =
      by_bid (λ n. add_item_missing env caller id s n dto)
        λ b q f e g.
          let b' = with_items (b.items ++ (new_item env dto ∷ [])) b in
          edit_or_stay id b (totalled b') e refl refl refl (λ h. refl)
            (add_item_found env caller id s b q f e dto)

  pub add_attachment-Steps :
      (a : BidAttachment) → Chain (Step env.now) s (add_attachment caller id a s).1
  add_attachment-Steps a =
      by_bid (λ n. add_attachment_missing env caller id s n a)
        λ b q f e g.
          edit_or_stay id b _ e refl refl refl (λ h. h)
            (add_attachment_found env caller id s b q f e g a)

  pub remove_item_of-Steps :
      (item_id : ℕ)
      → find_item_bid item_id s.bids ≡ some id
      → Chain (Step env.now) s (remove_item caller item_id s).1
  remove_item_of-Steps item_id h =
      by_bid (λ n. remove_item_missing env caller id s n item_id h)
        λ b q f e g.
          let b' = with_items (remove_item_row item_id b.items) b in
          edit_or_stay id b (totalled b') e refl refl refl (λ h. refl)
            (remove_item_found env caller id s b q f e item_id h)

no_item :
    (caller : Caller) (item_id : ℕ) (s : Sourcing)
    → find_item_bid item_id s.bids ≡ none
    → (remove_item caller item_id s).1 ≡ s
unfolding remove_item
no_item caller item_id s n = ground arith

pub remove_item-Steps :
    (env : Surroundings) (caller : Caller) (item_id : ℕ) (s : Sourcing)
    → Chain (Step env.now) s (remove_item caller item_id s).1
remove_item-Steps env caller item_id s = elim (Option-cases (find_item_bid item_id s.bids)) [
  | inl n ↦ stays (no_item caller item_id s n)
  | inr (id, h) ↦ remove_item_of-Steps env caller id s item_id h
]
