-- ===== src/Contracts/Versions.antt =====
-- The numbers of the versions of a contract.
use enterprise_ai_procuremen.Prelude.{ℕ, ◌+◌, ◌≡◌, refl, List, [], ◌∷◌, ◌++◌, length, arith}
use enterprise_ai_procuremen.Contracts.Schema.{ContractVersion}
use enterprise_ai_procuremen.Contracts.Repository.{max_version}

-- The versions are numbered from `n` on, in their order.
abbrev pub IsNumbered : ℕ → List ContractVersion → Type 0
IsNumbered n [] = Unit
IsNumbered n (v ∷ vs) = (v.version ≡ n) × IsNumbered (n + 1) vs

max_version-numbered :
    (n : ℕ) (v : ContractVersion) (vs : List ContractVersion)
    → IsNumbered n (v ∷ vs)
    → max_version (v ∷ vs) ≡ n + length vs
unfolding max_version
max_version-numbered n v [] h = ground (arith, h.0)
max_version-numbered n v (w ∷ vs) h = ground (arith, h.0, max_version-numbered (n + 1) w vs h.1)

next_version : (vs : List ContractVersion) → IsNumbered 1 vs → max_version vs + 1 ≡ 1 + length vs
unfolding max_version
next_version [] h = refl
next_version (v ∷ vs) h = ground (arith, max_version-numbered 1 v vs h)

IsNumbered-append :
    (n : ℕ) (v : ContractVersion) (vs : List ContractVersion)
    → v.version ≡ n + length vs
    → IsNumbered n vs
    → IsNumbered n (vs ++ (v ∷ []))
IsNumbered-append n v [] e h = (ground arith, tt)
IsNumbered-append n v (w ∷ vs) e h = (h.0, IsNumbered-append (n + 1) v vs (ground arith) h.1)

-- A version with the next number goes on with the numbering.
pub IsNumbered-next :
    (v : ContractVersion) (vs : List ContractVersion)
    → v.version ≡ max_version vs + 1
    → IsNumbered 1 vs
    → IsNumbered 1 (vs ++ (v ∷ []))
IsNumbered-next v vs e h = IsNumbered-append 1 v vs (ground (arith, next_version vs h)) h
