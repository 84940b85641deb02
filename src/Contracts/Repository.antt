-- ===== src/Contracts/Repository.antt =====
-- apps/api/src/contracts/contract.repository.ts.
use enterprise_ai_procuremen.Prelude.{
  ℕ, ◌+◌, ◌||◌, Option, none, some, List, [], ◌∷◌, ◌++◌, any, ltb, ◌==◌, if◌then◌else◌,
}
use enterprise_ai_procuremen.Results.{ok, err, Done, record_not_found, unique_violation}
use enterprise_ai_procuremen.Store.{lookup, insert, erase, has_key, any_row, count_rows}
use enterprise_ai_procuremen.Orders.Repository.{of_organisation, same_number}
use enterprise_ai_procuremen.Contracts.Schema.{
  Contract, ContractStatus, ContractVersion, ContractDocument, Contracting, M,
}

unfoldable pub find_contract : ℕ → ℕ → Contracting → Option Contract
find_contract id org s = of_organisation (λ c. c.organisation_id) org (lookup id s.contracts)

-- `contractNumber` is a unique column.
unfoldable pub create_contract : ℕ → Contract → M Contract
create_contract id c s =
    if has_key id s.contracts
      || any_row (λ d. same_number d.contract_number c.contract_number) s.contracts
    then (err unique_violation, s)
    else (ok c, record s { contracts = insert id c s.contracts })

unfoldable pub update_contract : ℕ → (Contract → Contract) → M Contract
update_contract id change s = elim (lookup id s.contracts) [
  | none ↦ (err record_not_found, s)
  | some c ↦ (ok (change c), record s { contracts = insert id (change c) s.contracts })
]

unfoldable pub delete_contract : ℕ → M Done
delete_contract id s = elim (lookup id s.contracts) [
  | none ↦ (err record_not_found, s)
  | some _ ↦ (ok tt, record s { contracts = erase id s.contracts })
]

abbrev pub with_status : ContractStatus → Contract → Contract
with_status status c = record c { status = status }

unfoldable pub activate_contract : ℕ → M Contract
unfolding update_contract
activate_contract id = update_contract id (with_status ContractStatus.active)

unfoldable pub terminate_contract : ℕ → M Contract
unfolding update_contract
terminate_contract id = update_contract id (with_status ContractStatus.terminated)

unfoldable pub renew_contract : ℕ → (Contract → Contract) → M Contract
unfolding update_contract
renew_contract id change = update_contract id λ c. with_status ContractStatus.active (change c)

unfoldable pub expire_contract : ℕ → M Contract
unfolding update_contract
expire_contract id = update_contract id (with_status ContractStatus.expired)

unfoldable pub insert_document : ℕ → ContractDocument → M Contract
unfolding update_contract
insert_document id d = update_contract id λ c. record c { documents = c.documents ++ (d ∷ []) }

abbrev pub with_version : ContractVersion → Contract → Contract
with_version v c = record c { versions = c.versions ++ (v ∷ []) }

-- The pair of `contractId` and `version` is unique.
unfoldable pub create_version : ℕ → ContractVersion → M Done
create_version id v s = elim (lookup id s.contracts) [
  | none ↦ (err record_not_found, s)
  | some c ↦
      if any (λ w. w.version == v.version) c.versions
      then (err unique_violation, s)
      else (ok tt, record s { contracts = insert id (with_version v c) s.contracts })
]

-- `_max: { version: true }`, or 0
unfoldable pub max_version : List ContractVersion → ℕ
max_version [] = 0
max_version (v ∷ vs) = let m = max_version vs in if ltb m v.version then v.version else m

unfoldable pub get_next_version_number : ℕ → Contracting → ℕ
unfolding max_version
get_next_version_number id s = elim (lookup id s.contracts) [
  | none ↦ 1
  | some c ↦ max_version c.versions + 1
]

unfoldable pub count_contracts : ℕ → Contracting → ℕ
count_contracts org s = count_rows (λ c. c.organisation_id == org) s.contracts
