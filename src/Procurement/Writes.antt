-- ===== src/Procurement/Writes.antt =====
-- Each request of the procurement service, and each decision on a workflow, is made of steps.
use enterprise_ai_procuremen.Prelude.{
  ℕ, ◌≡◌, ◌⊎◌, inl, inr, refl, sym, subst, ◌++◌, none, some, [], ◌∷◌, arith, Option-cases,
}
use enterprise_ai_procuremen.Relations.{Chain-trans, here, next, stays, moves}
use enterprise_ai_procuremen.Store.{Table, lookup, IsKeyed}
use enterprise_ai_procuremen.Database.{Surroundings}
use enterprise_ai_procuremen.Approvals.Schema.{
  ProcurementItem, ProcurementRequest, ProcurementStatus, Approvals,
}
use enterprise_ai_procuremen.Approvals.Repository.{find_request}
use enterprise_ai_procuremen.Approvals.Service.{start_workflow}
use enterprise_ai_procuremen.Approvals.Process.{
  Steps, drafts, edits, removes, with_request, without_request,
}
use enterprise_ai_procuremen.Procurement.Repository.{
  create_request, update_row, delete_request, create_item, find_item, delete_item, without_item,
  submit_request,
}
use enterprise_ai_procuremen.Procurement.Service.{
  CreateProcurementRequestDto, UpdateProcurementRequestDto, CreateProcurementItemDto, create_draft,
  new_draft, update_draft, edited, delete_draft, submit, add_line_item, remove_line_item,
  calculate_line_total,
}
use enterprise_ai_procuremen.Procurement.Submission.{start_workflow-Steps}

-- A write to a draft that keeps its status and its organisation.
edits_or_stays :
    {s t : Approvals} (id : ℕ) (r r' : ProcurementRequest)
    → lookup id s.requests ≡ some r
    → r'.status ≡ r.status
    → r'.organisation_id ≡ r.organisation_id
    → (t ≡ s) ⊎ ((r.status ≡ ProcurementStatus.draft) × (t ≡ with_request id r' s))
    → Steps s t
edits_or_stays {s} id r r' e q o (inl same) = stays same
edits_or_stays {s} id r r' e q o (inr (d, t)) = moves t (edits s id r r' e d (inl (ground arith)) o)

create_cases :
    (env : Surroundings) (org requester : ℕ) (dto : CreateProcurementRequestDto) (s : Approvals)
    → ((create_draft env org requester dto s).1 ≡ s)
      ⊎ ((lookup env.new_id s.requests ≡ none)
          × ((create_draft env org requester dto s).1
              ≡ with_request env.new_id (new_draft org requester dto) s))
unfolding create_draft create_request
create_cases env org requester dto s = ground arith

pub create_draft-Steps :
    (env : Surroundings) (org requester : ℕ) (dto : CreateProcurementRequestDto) (s : Approvals)
    → Steps s (create_draft env org requester dto s).1
create_draft-Steps env org requester dto s = elim (create_cases env org requester dto s) [
  | inl same ↦ stays same
  | inr (n, t) ↦ moves t (drafts s env.new_id _ n refl)
]

module _ (org id : ℕ) (s : Approvals) where
  update_missing :
      (dto : UpdateProcurementRequestDto)
      → lookup id s.requests ≡ none
      → (update_draft org id dto s).1 ≡ s
  unfolding update_draft find_request
  update_missing dto n = ground arith

  update_found :
      (dto : UpdateProcurementRequestDto) (r : ProcurementRequest)
      → lookup id s.requests ≡ some r
      → ((update_draft org id dto s).1 ≡ s)
        ⊎ ((r.status ≡ ProcurementStatus.draft)
            × ((update_draft org id dto s).1 ≡ with_request id (edited dto r) s))
  unfolding update_draft find_request update_row
  update_found dto r e = ground arith

  pub update_draft-Steps :
      (dto : UpdateProcurementRequestDto) → Steps s (update_draft org id dto s).1
  update_draft-Steps dto = elim (Option-cases (lookup id s.requests)) [
    | inl n ↦ stays (update_missing dto n)
    | inr (r, e) ↦ edits_or_stays id r (edited dto r) e refl refl (update_found dto r e)
  ]

  delete_missing : lookup id s.requests ≡ none → (delete_draft org id s).1 ≡ s
  unfolding delete_draft find_request
  delete_missing n = ground arith

  delete_found :
      (r : ProcurementRequest)
      → lookup id s.requests ≡ some r
      → ((delete_draft org id s).1 ≡ s)
        ⊎ ((r.status ≡ ProcurementStatus.draft)
            × ((delete_draft org id s).1 ≡ without_request id s))
  unfolding delete_draft find_request delete_request
  delete_found r e = ground arith

  pub delete_draft-Steps : Steps s (delete_draft org id s).1
  delete_draft-Steps = elim (Option-cases (lookup id s.requests)) [
    | inl n ↦ stays (delete_missing n)
    | inr (r, e) ↦ elim (delete_found r e) [
      | inl same ↦ stays same
      | inr (d, t) ↦ moves t (removes s id r e d)
    ]
  ]

module _ (env : Surroundings) (org id : ℕ) (s : Approvals) where
  abbrev submitted : ProcurementRequest → ProcurementRequest
  submitted r = record r { status = ProcurementStatus.submitted }

  submit_missing : lookup id s.requests ≡ none → (submit env org id s).1 ≡ s
  unfolding submit find_request
  submit_missing n = ground arith

  submit_found :
      (r : ProcurementRequest)
      → lookup id s.requests ≡ some r
      → ((submit env org id s).1 ≡ s)
        ⊎ ((r.status ≡ ProcurementStatus.draft)
            × ((submit env org id s).1
                ≡ (start_workflow env org id (with_request id (submitted r) s)).1))
  unfolding submit find_request submit_request
  submit_found r e = ground arith

  -- Submission edits the request, and then starts its workflow.
  pub submit-Steps : Steps s (submit env org id s).1
  submit-Steps = elim (Option-cases (lookup id s.requests)) [
    | inl n ↦ stays (submit_missing n)
    | inr (r, e) ↦ elim (submit_found r e) [
      | inl same ↦ stays same
      | inr (d, t) ↦ Chain-trans (next here (edits s id r (submitted r) e d (inr refl) refl)) (
          subst (Steps (with_request id (submitted r) s)) (sym t)
            (start_workflow-Steps env org id (with_request id (submitted r) s)))
    ]
  ]

  abbrev new_item : CreateProcurementItemDto → ProcurementItem
  new_item dto = record {
    id = env.new_item_id 0;
    description = dto.description;
    quantity = dto.quantity;
    unit_price = dto.unit_price;
    total_price = calculate_line_total dto.quantity dto.unit_price;
  }

  abbrev with_item : CreateProcurementItemDto → ProcurementRequest → ProcurementRequest
  with_item dto r = record r { items = r.items ++ (new_item dto ∷ []) }

  add_missing :
      (dto : CreateProcurementItemDto)
      → lookup id s.requests ≡ none
      → (add_line_item env org id dto s).1 ≡ s
  unfolding add_line_item find_request
  add_missing dto n = ground arith

  add_found :
      (dto : CreateProcurementItemDto) (r : ProcurementRequest)
      → lookup id s.requests ≡ some r
      → ((add_line_item env org id dto s).1 ≡ s)
        ⊎ ((r.status ≡ ProcurementStatus.draft)
            × ((add_line_item env org id dto s).1 ≡ with_request id (with_item dto r) s))
  unfolding add_line_item find_request create_item
  add_found dto r e = ground arith

  pub add_line_item-Steps :
      (dto : CreateProcurementItemDto) → Steps s (add_line_item env org id dto s).1
  add_line_item-Steps dto = elim (Option-cases (lookup id s.requests)) [
    | inl n ↦ stays (add_missing dto n)
    | inr (r, e) ↦ edits_or_stays id r (with_item dto r) e refl refl (add_found dto r e)
  ]

find_item-lookup :
    (item_id k : ℕ) (t : Table ProcurementRequest) (r : ProcurementRequest)
    → IsKeyed t
    → find_item item_id t ≡ some (k, r)
    → lookup k t ≡ some r
unfolding find_item
find_item-lookup item_id k [] r h e = cc
find_item-lookup item_id k ((j, q) ∷ t) r h e = ground (arith, find_item-lookup item_id k t r h.1)

module _ (org item_id : ℕ) (s : Approvals) where
  remove_missing : find_item item_id s.requests ≡ none → (remove_line_item org item_id s).1 ≡ s
  unfolding remove_line_item
  remove_missing n = ground arith

  remove_found :
      (id : ℕ) (r : ProcurementRequest)
      → find_item item_id s.requests ≡ some (id, r)
      → lookup id s.requests ≡ some r
      → ((remove_line_item org item_id s).1 ≡ s)
        ⊎ ((r.status ≡ ProcurementStatus.draft)
            × ((remove_line_item org item_id s).1
                ≡ with_request id (record r { items = without_item item_id r.items }) s))
  unfolding remove_line_item delete_item
  remove_found id r f e = ground arith

  pub remove_line_item-Steps : IsKeyed s.requests → Steps s (remove_line_item org item_id s).1
  remove_line_item-Steps h = elim (Option-cases (find_item item_id s.requests)) [
    | inl n ↦ stays (remove_missing n)
    | inr ((id, r), f) ↦
        let e = find_item-lookup item_id id s.requests r h f in
        edits_or_stays id r (record r { items = without_item item_id r.items }) e refl refl
          (remove_found id r f e)
  ]
