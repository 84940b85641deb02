-- ===== src/Procurement/Repository.antt =====
-- apps/api/src/procurement/procurement.repository.ts.
use enterprise_ai_procuremen.Prelude.{
  ℕ, Bool, not, Option, none, some, List, [], ◌∷◌, ◌++◌, any, ◌==◌, if◌then◌else◌,
}
use enterprise_ai_procuremen.Results.{ok, err, Done, record_not_found, unique_violation}
use enterprise_ai_procuremen.Store.{Table, lookup, insert, erase, has_key, keep_rows}
use enterprise_ai_procuremen.Approvals.Schema.{
  ProcurementItem, ProcurementRequest, ProcurementStatus, M,
}

unfoldable pub create_request : ℕ → ProcurementRequest → M ProcurementRequest
create_request id r s =
    if has_key id s.requests
    then (err unique_violation, s)
    else (ok r, record s { requests = insert id r s.requests })

unfoldable pub update_row : ℕ → (ProcurementRequest → ProcurementRequest) → M ProcurementRequest
update_row id change s = elim (lookup id s.requests) [
  | none ↦ (err record_not_found, s)
  | some r ↦ (ok (change r), record s { requests = insert id (change r) s.requests })
]

-- The workflow of a request is deleted with it.
unfoldable pub delete_request : ℕ → M Done
delete_request id s = elim (lookup id s.requests) [
  | none ↦ (err record_not_found, s)
  | some _ ↦ (
    ok tt,
    record s {
      requests = erase id s.requests;
      workflows = keep_rows (λ w. not (w.procurement_request_id == id)) s.workflows;
    },
  )
]

unfoldable pub submit_request : ℕ → M ProcurementRequest
unfolding update_row
submit_request id = update_row id λ r. record r { status = ProcurementStatus.submitted }

-- The item gets the primary key `item.id`; the items of a request are in the order of creation.
unfoldable pub create_item : ℕ → ProcurementItem → M ProcurementRequest
unfolding update_row
create_item id item = update_row id λ r. record r { items = r.items ++ (item ∷ []) }

abbrev pub has_item : ℕ → ProcurementRequest → Bool
has_item item_id r = any (λ i. i.id == item_id) r.items

-- the key and the row of the request that an item belongs to
unfoldable pub find_item : ℕ → Table ProcurementRequest → Option (ℕ × ProcurementRequest)
find_item item_id [] = none
find_item item_id ((k, r) ∷ t) = if has_item item_id r then some (k, r) else find_item item_id t

unfoldable pub without_item : ℕ → List ProcurementItem → List ProcurementItem
without_item item_id [] = []
without_item item_id (i ∷ is) =
    if i.id == item_id then without_item item_id is else i ∷ without_item item_id is

unfoldable pub delete_item : ℕ → ℕ → M ProcurementRequest
unfolding update_row
delete_item id item_id = update_row id λ r. record r { items = without_item item_id r.items }
