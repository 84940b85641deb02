-- ===== src/Contracts/Validity.antt =====
-- What holds of every contract after any requests.
use enterprise_ai_procuremen.Prelude.{
  ℕ, ◌+◌, ◌≡◌, ◌≢◌, ◌⊎◌, ◌<◌, inl, inr, refl, sym, subst, Bool, true, false, Option, none, some,
  List, [], ◌∷◌, arith, ◌==◌, Bool-cases, Option-cases, any,
}
use enterprise_ai_procuremen.Results.{
  Result, ok, err, Failure, gets, or_throw, throw_if, throw_unless, ◌>>=◌, ◌>>◌,
}
use enterprise_ai_procuremen.Store.{
  lookup, insert, IsKeyed, insert-IsKeyed, erase-IsKeyed, lookup-insert_self, lookup-insert_ne,
  lookup-erase_ne, lookup-erase_self,
}
use enterprise_ai_procuremen.Contracts.Schema.{
  Contract, ContractStatus, ContractVersion, ChangeSummary, Contracting, M,
}
use enterprise_ai_procuremen.Contracts.Repository.{
  update_contract, create_contract, delete_contract, create_version, get_next_version_number,
  max_version, with_version,
}
use enterprise_ai_procuremen.Contracts.Service.{record_version}
use enterprise_ai_procuremen.Contracts.Versions.{IsNumbered, IsNumbered-next}

-- The dates are in order, the versions are numbered from 1 on, and the status is one that the service
-- gives.
pub record IsValid (c : Contract) : Type 0 where
  pub dates : c.start_date < c.end_date
  pub numbered : IsNumbered 1 c.versions
  pub not_reviewed : c.status ≢ ContractStatus.under_review
  pub not_renewed : c.status ≢ ContractStatus.renewed

pub record AllValid (s : Contracting) : Type 0 where
  pub keyed : IsKeyed s.contracts
  pub valid : (k : ℕ) (c : Contract) → lookup k s.contracts ≡ some c → IsValid c

-- An action keeps the contracts valid, whether it succeeds or not.
pub record Keeps {A : Type 0} (m : M A) : Type 0 where
  pub after : (s : Contracting) → AllValid s → AllValid (m s).1

bind_after :
    {A B : Type 0} (f : A → M B) (k : (a : A) → Keeps (f a)) (q : Result A × Contracting)
    → AllValid q.1
    → AllValid
        (let (r, s') = q in
          elim r as (λ _. Result B × Contracting) [ ok a ↦ f a s' | err e ↦ (err e, s') ]).1
bind_after f k (ok a, s) v = (k a).after s v
bind_after f k (err e, s) v = v

pub bind-Keeps :
    {A B : Type 0} (m : M A) (f : A → M B) → Keeps m → ((a : A) → Keeps (f a)) → Keeps (m >>= f)
bind-Keeps m f h k = record { after = λ s v. bind_after f k (m s) (h.after s v) }

pub gets-Keeps : {A : Type 0} (f : Contracting → A) → Keeps (gets f)
gets-Keeps f = record { after = λ s v. v }

pub or_throw-Keeps : {A : Type 0} (o : Option A) (e : Failure) → Keeps (or_throw o e)
or_throw-Keeps none e = record { after = λ s v. v }
or_throw-Keeps (some a) e = record { after = λ s v. v }

pub throw_if-Keeps : (b : Bool) (e : Failure) → Keeps (throw_if b e)
throw_if-Keeps true e = record { after = λ s v. v }
throw_if-Keeps false e = record { after = λ s v. v }

pub throw_unless-Keeps : (b : Bool) (e : Failure) → Keeps (throw_unless b e)
throw_unless-Keeps true e = record { after = λ s v. v }
throw_unless-Keeps false e = record { after = λ s v. v }

-- What stands after a test may use that the test was passed.
pub throw_if-then :
    {A : Type 0} (b : Bool) (e : Failure) (m : M A)
    → (b ≡ false → Keeps m)
    → Keeps (throw_if b e >> m)
throw_if-then true e m k = record { after = λ s v. v }
throw_if-then false e m k = record { after = λ s v. (k refl).after s v }

write-IsValid :
    (id : ℕ) (c : Contract) (s : Contracting)
    → AllValid s
    → IsValid c
    → AllValid (record s { contracts = insert id c s.contracts })
write-IsValid id c s v h = record {
  keyed = insert-IsKeyed id c s.contracts v.keyed;
  valid = λ k x l. elim (Bool-cases (k == id)) [
    | inl same ↦
        let here : c ≡ x = ground (arith, lookup-insert_self id c s.contracts) in
        subst IsValid here h
    | inr other ↦ v.valid k x (ground (arith, lookup-insert_ne k id c s.contracts))
  ];
}

pub update_contract-Keeps :
    (id : ℕ) (change : Contract → Contract)
    → ((c : Contract) → IsValid c → IsValid (change c))
    → Keeps (update_contract id change)
unfolding update_contract
update_contract-Keeps id change h = record {
  after = λ s v. elim (Option-cases (lookup id s.contracts)) [
    | inl n ↦ rw (n, update_contract) v
    | inr (c, e) ↦ rw (e, update_contract) (write-IsValid id (change c) s v (h c (v.valid id c e)))
  ];
}

pub delete_contract-Keeps : (id : ℕ) → Keeps (delete_contract id)
unfolding delete_contract
delete_contract-Keeps id = record {
  after = λ s v. elim (Option-cases (lookup id s.contracts)) [
    | inl n ↦ rw (n, delete_contract) v
    | inr (c, e) ↦
        rw (e, delete_contract)
          (record {
            keyed = erase-IsKeyed id s.contracts v.keyed;
            valid = λ k x l. elim (Bool-cases (k == id)) [
              | inl same ↦ absurd (ground (arith, lookup-erase_self id s.contracts v.keyed))
              | inr other ↦ v.valid k x (ground (arith, lookup-erase_ne k id s.contracts))
            ];
          })
  ];
}

create_contract-cases :
    (id : ℕ) (c : Contract) (s : Contracting)
    → ((create_contract id c s).1 ≡ s)
      ⊎ ((create_contract id c s).1 ≡ record s { contracts = insert id c s.contracts })
unfolding create_contract
create_contract-cases id c s = ground arith

pub create_contract-Keeps : (id : ℕ) (c : Contract) → IsValid c → Keeps (create_contract id c)
create_contract-Keeps id c h = record {
  after = λ s v. elim (create_contract-cases id c s) [
    | inl same ↦ subst AllValid (sym same) v
    | inr t ↦ subst AllValid (sym t) (write-IsValid id c s v h)
  ];
}

version-IsValid :
    (c : Contract) (v : ContractVersion)
    → v.version ≡ max_version c.versions + 1
    → IsValid c
    → IsValid (with_version v c)
version-IsValid c v e h = record {
  dates = h.dates;
  numbered = IsNumbered-next v c.versions e h.numbered;
  not_reviewed = h.not_reviewed;
  not_renewed = h.not_renewed;
}

create_version-cases :
    (id : ℕ) (v : ContractVersion) (s : Contracting) (c : Contract)
    → lookup id s.contracts ≡ some c
    → ((create_version id v s).1 ≡ s)
      ⊎ ((any (λ w. w.version == v.version) c.versions ≡ false)
          × ((create_version id v s).1
              ≡ record s { contracts = insert id (with_version v c) s.contracts }))
unfolding create_version
create_version-cases id v s c e = ground arith

create_version-missing :
    (id : ℕ) (v : ContractVersion) (s : Contracting)
    → lookup id s.contracts ≡ none
    → (create_version id v s).1 ≡ s
unfolding create_version
create_version-missing id v s n = ground arith

create_version_after :
    (id : ℕ) (v : ContractVersion) (s : Contracting)
    → AllValid s
    → ((c : Contract)
        → lookup id s.contracts ≡ some c
        → IsNumbered 1 c.versions
        → any (λ w. w.version == v.version) c.versions ≡ false
        → v.version ≡ max_version c.versions + 1)
    → AllValid (create_version id v s).1
create_version_after id v s a h = elim (Option-cases (lookup id s.contracts)) [
  | inl n ↦ subst AllValid (sym (create_version-missing id v s n)) a
  | inr (c, e) ↦ elim (create_version-cases id v s c e) [
    | inl same ↦ subst AllValid (sym same) a
    | inr (free, t) ↦ subst AllValid (sym t) (
        write-IsValid id (with_version v c) s a
          (version-IsValid c v (h c e (a.valid id c e).numbered free) (a.valid id c e)))
  ]
]

-- Only a contract without versions has no first version.
first_free :
    (v : ContractVersion) (vs : List ContractVersion)
    → v.version ≡ 1
    → IsNumbered 1 vs
    → any (λ w. w.version == v.version) vs ≡ false
    → v.version ≡ max_version vs + 1
unfolding max_version
first_free v [] e h f = ground arith
first_free v (w ∷ vs) e h f = absurd (ground (arith, h.0))

pub first_version-Keeps :
    (id : ℕ) (v : ContractVersion) → v.version ≡ 1 → Keeps (create_version id v)
first_version-Keeps id v e = record {
  after = λ s a. create_version_after id v s a λ c l h f. first_free v c.versions e h f;
}

next-found :
    (id : ℕ) (s : Contracting) (c : Contract)
    → lookup id s.contracts ≡ some c
    → get_next_version_number id s ≡ max_version c.versions + 1
unfolding get_next_version_number
next-found id s c e = ground arith

pub record_version-Keeps :
    (id user : ℕ) (summary : ChangeSummary) → Keeps (record_version id user summary)
unfolding record_version
record_version-Keeps id user summary = record {
  after = λ s a. create_version_after id _ s a λ c l h f. next-found id s c l;
}
