-- ===== src/Rfqs/Writes.antt =====
-- Each request of the RFQ service is a step of the sourcing process, or writes nothing.
use enterprise_ai_procuremen.Prelude.{
  ℕ, ◌+◌, ◌≡◌, ◌⊎◌, ◌<◌, inl, inr, refl, false, none, some, [], ◌∷◌, ◌++◌, is_empty, arith,
  Bool-cases, Option-cases, ◌||◌,
}
use enterprise_ai_procuremen.Results.{or_else, ok, err, Failure, bad_request, is_some}
use enterprise_ai_procuremen.Relations.{Chain, stays, moves}
use enterprise_ai_procuremen.Store.{lookup}
use enterprise_ai_procuremen.Database.{Surroundings, Caller}
use enterprise_ai_procuremen.Approvals.Schema.{ProcurementRequest, ProcurementStatus}
use enterprise_ai_procuremen.Approvals.Repository.{find_request}
use enterprise_ai_procuremen.Sourcing.Schema.{Rfq, RfqStatus, Sourcing}
use enterprise_ai_procuremen.Sourcing.Lookup.{find_rfq}
use enterprise_ai_procuremen.Sourcing.Process.{
  Step, opens, moves_rfq, removes_rfq, RfqMove, edits, invites, publishes, closes, cancels,
  with_rfq, without_rfq, IsOpen,
}
use enterprise_ai_procuremen.Rfqs.Repository.{
  create_rfq, update_rfq, delete_rfq, publish_rfq, close_rfq, cancel_rfq, insert_invitation,
  find_vendor_invitation, is_invited, new_invitation, count_rfqs,
}
use enterprise_ai_procuremen.Rfqs.Service.{
  CreateRfqDto, UpdateRfqDto, create, new_rfq, update, update_data, published_message, edited,
  delete_draft, publish, close, cancel, invite_vendor,
}

module _ (env : Surroundings) (org creator : ℕ) (dto : CreateRfqDto) (s : Sourcing) where
  abbrev fresh_rfq : Rfq
  fresh_rfq = new_rfq creator dto (record { year = env.year; sequence = count_rfqs org s + 1 })

  create_missing :
      lookup dto.procurement_request_id s.approvals.requests ≡ none
      → (create env org creator dto s).1 ≡ s
  unfolding create find_request
  create_missing n = ground arith

  create_found :
      (r : ProcurementRequest)
      → lookup dto.procurement_request_id s.approvals.requests ≡ some r
      → ((create env org creator dto s).1 ≡ s)
        ⊎ ((lookup env.new_id s.rfqs ≡ none)
            × (r.status ≡ ProcurementStatus.approved)
            × (env.now < dto.closing_date)
            × ((create env org creator dto s).1 ≡ with_rfq env.new_id fresh_rfq s))
  unfolding create create_rfq find_request
  create_found r e = ground arith

  pub create-Steps : Chain (Step env.now) s (create env org creator dto s).1
  create-Steps = elim (Option-cases (lookup dto.procurement_request_id s.approvals.requests)) [
    | inl n ↦ stays (create_missing n)
    | inr (r, e) ↦ elim (create_found r e) [
      | inl same ↦ stays same
      | inr (n, a, c, t) ↦ moves t (opens s env.new_id fresh_rfq r n e a refl c)
    ]
  ]

-- A write that changes one request for quotation by a move, or nothing.
move_or_stay :
    {now : ℕ} {s t : Sourcing} (id : ℕ)
    → ((lookup id s.rfqs ≡ none) → t ≡ s)
    → ((q : Rfq)
        → lookup id s.rfqs ≡ some q
        → (t ≡ s) ⊎ ((q' : Rfq) × RfqMove now q q' × (t ≡ with_rfq id q' s)))
    → Chain (Step now) s t
move_or_stay {s} id missing found = elim (Option-cases (lookup id s.rfqs)) [
  | inl n ↦ stays (missing n)
  | inr (q, e) ↦ elim (found q e) [
    | inl same ↦ stays same
    | inr (q', m, t) ↦ moves t (moves_rfq s id q q' e m)
  ]
]

-- The data that is written has the closing date that was sent, and for a published request no texts.
update_data-cases :
    (status : RfqStatus) (dto : UpdateRfqDto) (s : Sourcing)
    → ((x : Failure) × (update_data status dto s ≡ (err x, s)))
      ⊎ ((d : UpdateRfqDto) × (update_data status dto s ≡ (ok d, s))
          × (d.title ≡ dto.title)
          × (d.description ≡ dto.description)
          × (d.closing_date ≡ dto.closing_date))
unfolding update_data
update_data-cases RfqStatus.draft dto s = inr (dto, refl, refl, refl, refl)
update_data-cases RfqStatus.published dto s =
    elim (Bool-cases (is_some dto.title || is_some dto.description)) [
      | inl texts ↦ inl (bad_request published_message, ground arith)
      | inr no_texts ↦ elim (Option-cases dto.closing_date) [
        | inl n ↦ inl (bad_request published_message, ground arith)
        | inr (date, e) ↦ inr (
          record {
            title = none;
            description = none;
            closing_date = dto.closing_date;
            key_count = 1;
          },
          ground arith,
          ground arith,
          ground arith,
          refl,
        )
      ]
    ]
update_data-cases RfqStatus.closed dto s = inr (dto, refl, refl, refl, refl)
update_data-cases RfqStatus.cancelled dto s = inr (dto, refl, refl, refl, refl)

module _ (env : Surroundings) (org id : ℕ) (s : Sourcing) where
  update_missing : (dto : UpdateRfqDto) → lookup id s.rfqs ≡ none → (update env org id dto s).1 ≡ s
  unfolding update find_rfq
  update_missing dto n = ground arith

  update_foreign : (dto : UpdateRfqDto) → find_rfq id org s ≡ none → (update env org id dto s).1 ≡ s
  unfolding update
  update_foreign dto n = ground arith

  found_row : (q p : Rfq) → lookup id s.rfqs ≡ some q → find_rfq id org s ≡ some p → q ≡ p
  unfolding find_rfq
  found_row q p e f = ground arith

  abbrev Updated : UpdateRfqDto → Rfq → Type 0
  Updated dto q =
      ((update env org id dto s).1 ≡ s)
      ⊎ (IsOpen q
          × ((or_else dto.closing_date q.closing_date ≡ q.closing_date)
              ⊎ (env.now < or_else dto.closing_date q.closing_date))
          × ((update env org id dto s).1 ≡ with_rfq id (edited dto q) s))

  update_owned :
      (dto : UpdateRfqDto) (q : Rfq)
      → lookup id s.rfqs ≡ some q
      → find_rfq id org s ≡ some q
      → Updated dto q
  unfolding update update_rfq
  update_owned dto q e f = elim (update_data-cases q.status dto s) [
    | inl (x, u) ↦ inl (ground arith)
    | inr (d, u, t, x, c) ↦ ground arith
  ]

  update_found : (dto : UpdateRfqDto) (q : Rfq) → lookup id s.rfqs ≡ some q → Updated dto q
  update_found dto q e = elim (Option-cases (find_rfq id org s)) [
    | inl n ↦ inl (update_foreign dto n)
    | inr (p, f) ↦ update_owned dto q e (rw (found_row q p e f) f)
  ]

  pub update-Steps : (dto : UpdateRfqDto) → Chain (Step env.now) s (update env org id dto s).1
  update-Steps dto = move_or_stay id (update_missing dto) λ q e. elim (update_found dto q e) [
    | inl same ↦ inl same
    | inr (o, d, t) ↦ inr (edited dto q, edits q _ _ _ o d, t)
  ]

  delete_missing : lookup id s.rfqs ≡ none → (delete_draft org id s).1 ≡ s
  unfolding delete_draft find_rfq
  delete_missing n = ground arith

  delete_found :
      (q : Rfq)
      → lookup id s.rfqs ≡ some q
      → ((delete_draft org id s).1 ≡ s)
        ⊎ ((q.status ≡ RfqStatus.draft) × ((delete_draft org id s).1 ≡ without_rfq id s))
  unfolding delete_draft find_rfq delete_rfq
  delete_found q e = ground arith

  pub delete_draft-Steps : Chain (Step env.now) s (delete_draft org id s).1
  delete_draft-Steps = elim (Option-cases (lookup id s.rfqs)) [
    | inl n ↦ stays (delete_missing n)
    | inr (q, e) ↦ elim (delete_found q e) [
      | inl same ↦ stays same
      | inr (d, t) ↦ moves t (removes_rfq s id q e d)
    ]
  ]

  publish_missing : lookup id s.rfqs ≡ none → (publish org id s).1 ≡ s
  unfolding publish find_rfq
  publish_missing n = ground arith

  publish_found :
      (q : Rfq)
      → lookup id s.rfqs ≡ some q
      → ((publish org id s).1 ≡ s)
        ⊎ ((q.status ≡ RfqStatus.draft)
            × (is_empty q.vendors ≡ false)
            × ((publish org id s).1 ≡ with_rfq id (record q { status = RfqStatus.published }) s))
  unfolding publish find_rfq publish_rfq
  publish_found q e = ground arith

  pub publish-Steps : Chain (Step env.now) s (publish org id s).1
  publish-Steps = move_or_stay id publish_missing λ q e. elim (publish_found q e) [
    | inl same ↦ inl same
    | inr (d, n, t) ↦ inr (_, publishes q d n, t)
  ]

  close_missing : lookup id s.rfqs ≡ none → (close org id s).1 ≡ s
  unfolding close find_rfq
  close_missing n = ground arith

  close_found :
      (q : Rfq)
      → lookup id s.rfqs ≡ some q
      → ((close org id s).1 ≡ s)
        ⊎ ((q.status ≡ RfqStatus.published)
            × ((close org id s).1 ≡ with_rfq id (record q { status = RfqStatus.closed }) s))
  unfolding close find_rfq close_rfq
  close_found q e = ground arith

  pub close-Steps : Chain (Step env.now) s (close org id s).1
  close-Steps =
      move_or_stay id close_missing
        λ q e. elim (close_found q e) [ inl same ↦ inl same | inr (d, t) ↦ inr (_, closes q d, t) ]

  cancel_missing : lookup id s.rfqs ≡ none → (cancel org id s).1 ≡ s
  unfolding cancel find_rfq
  cancel_missing n = ground arith

  cancel_found :
      (q : Rfq)
      → lookup id s.rfqs ≡ some q
      → ((cancel org id s).1 ≡ s)
        ⊎ (IsOpen q
            × ((cancel org id s).1 ≡ with_rfq id (record q { status = RfqStatus.cancelled }) s))
  unfolding cancel find_rfq cancel_rfq
  cancel_found q e = ground arith

  pub cancel-Steps : Chain (Step env.now) s (cancel org id s).1
  cancel-Steps =
      move_or_stay id cancel_missing λ q e. elim (cancel_found q e) [
        | inl same ↦ inl same
        | inr (o, t) ↦ inr (_, cancels q o, t)
      ]

module _ (env : Surroundings) (caller : Caller) (id vendor : ℕ) (s : Sourcing) where
  invite_missing : lookup id s.rfqs ≡ none → (invite_vendor env caller id vendor s).1 ≡ s
  unfolding invite_vendor find_rfq
  invite_missing n = ground arith

  invite_found :
      (q : Rfq)
      → lookup id s.rfqs ≡ some q
      → ((invite_vendor env caller id vendor s).1 ≡ s)
        ⊎ ((q.status ≡ RfqStatus.draft)
            × (is_invited vendor q ≡ false)
            × ((invite_vendor env caller id vendor s).1
                ≡ with_rfq id
                    (record q { vendors = q.vendors ++ (new_invitation vendor env.now ∷ []) })
                    s))
  unfolding invite_vendor find_rfq find_vendor_invitation insert_invitation
  invite_found q e = ground arith

  pub invite_vendor-Steps : Chain (Step env.now) s (invite_vendor env caller id vendor s).1
  invite_vendor-Steps = move_or_stay id invite_missing λ q e. elim (invite_found q e) [
    | inl same ↦ inl same
    | inr (d, n, t) ↦ inr (_, invites q vendor d n, t)
  ]
