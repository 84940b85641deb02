-- ===== src/Results.antt =====
-- What a service method answers, and a request as an action on a state. An exception leaves in place
-- what was written before it: only what a repository wraps in a transaction is rolled back.
use enterprise_ai_procuremen.Prelude.{
  Bool, true, false, Option, none, some, String, ◌==◌, ℕ, ◌≡◌, refl, ◌⊎◌, inl, inr,
}

-- The Nest exceptions with their messages, and the errors of the database client: P2025 of an update
-- or a deletion by a key that no row has, P2002 of a value that a unique column holds already.
pub data Failure : Type 0 where
  bad_request forbidden not_found conflict internal_error : String → Failure
  record_not_found unique_violation : Failure

pub data Result (A : Type 0) : Type 0 where
  ok : A → Result A
  err : Failure → Result A

abbrev pub Done : Type 0
Done = Unit

abbrev pub Action : Type 0 → Type 0 → Type 0
Action S A = S → Result A × S

module _ {S A : Type 0} where
  abbrev pub pure : A → Action S A
  pure a s = (ok a, s)

  abbrev pub throw : Failure → Action S A
  throw e s = (err e, s)

  abbrev pub gets : (S → A) → Action S A
  gets f s = (ok (f s), s)

  -- `if (!x) throw e`
  abbrev pub or_throw : Option A → Failure → Action S A
  or_throw none e = throw e
  or_throw (some a) _ = pure a

infixl 5 ◌>>=◌ ◌>>◌
abbrev pub ◌>>=◌ : {S A B : Type 0} → Action S A → (A → Action S B) → Action S B
◌>>=◌ m f s = let (r, s') = m s in elim r [ ok a ↦ f a s' | err e ↦ (err e, s') ]

abbrev pub ◌>>◌ : {S A B : Type 0} → Action S A → Action S B → Action S B
m >> k = m >>= λ _. k

module _ {S : Type 0} where
  -- `if (c) throw e`
  abbrev pub throw_if : Bool → Failure → Action S Done
  throw_if true e s = (err e, s)
  throw_if false _ s = (ok tt, s)

  -- `if (!c) throw e`
  abbrev pub throw_unless : Bool → Failure → Action S Done
  throw_unless true _ s = (ok tt, s)
  throw_unless false e s = (err e, s)

  abbrev pub modify : (S → S) → Action S Done
  modify f s = (ok tt, f s)

-- `prisma.$transaction`: a failure rolls back.
abbrev pub transaction : {S A : Type 0} → Action S A → Action S A
transaction m s = let (r, s') = m s in elim r [ ok a ↦ (ok a, s') | err e ↦ (err e, s) ]

-- An enumeration of the schema, compared by `===`.
pub record Enum (A : Type 0) : Type 0 where
  pub index : A → ℕ

infix 50 ◌===◌
abbrev pub ◌===◌ : {A : Type 0} ⦃e : Enum A⦄ → A → A → Bool
◌===◌ ⦃e⦄ a b = e.index a == e.index b

-- `x ?? y`
abbrev pub or_else : {A : Type 0} → Option A → A → A
or_else none y = y
or_else (some x) _ = x

abbrev pub is_some : {A : Type 0} → Option A → Bool
is_some none = false
is_some (some _) = true

abbrev pub is_err : {A : Type 0} → Result A → Bool
is_err (ok _) = false
is_err (err _) = true

-- `...(x !== undefined ? { field: x } : {})` on a nullable column
abbrev pub or_keep : {A : Type 0} → Option A → Option A → Option A
or_keep none old = old
or_keep (some x) _ = some x

pub Result-cases :
    {A : Type 0} (r : Result A) → ((a : A) × (r ≡ ok a)) ⊎ ((e : Failure) × (r ≡ err e))
Result-cases (ok a) = inl (a, refl)
Result-cases (err e) = inr (e, refl)

-- the answers of an action that leaves the state
pub answer-cases :
    {S A : Type 0} {s : S} (q : Result A × S)
    → q.1 ≡ s
    → ((a : A) × (q ≡ (ok a, s))) ⊎ ((e : Failure) × (q ≡ (err e, s)))
answer-cases (ok a, s') h = inl (a, rw h refl)
answer-cases (err e, s') h = inr (e, rw h refl)
