-- ===== src/Sourcing/Soundness.antt =====
-- What holds in every state that the sourcing process reaches.
use enterprise_ai_procuremen.Prelude.{
  ℕ, ◌≡◌, ◌≢◌, ◌⊎◌, ◌≤◌, refl, true, Bool, some, List, [], ◌∷◌, ◌++◌, arith, any, ◌==◌,
}
use enterprise_ai_procuremen.Store.{lookup, IsKeyed}
use enterprise_ai_procuremen.Schema.{BidStatus}
use enterprise_ai_procuremen.Sourcing.Schema.{Rfq, RfqStatus, RfqVendor, Bid, Award, Sourcing}
use enterprise_ai_procuremen.Rfqs.Repository.{is_invited}
use enterprise_ai_procuremen.Bids.Repository.{respond}
use enterprise_ai_procuremen.Sourcing.Process.{
  RfqMove, edits, invites, publishes, closes, cancels, is_evaluated, HasTotal,
}

-- A bid has left its draft in time: it was submitted at `t`, no later than the closing date.
abbrev pub WasSubmitted : ℕ → Bid → Rfq → Type 0
WasSubmitted now b q = (t : ℕ) × (b.submitted_at ≡ some t) × (t ≤ now) × (t ≤ q.closing_date)

-- The request that a bid answers is there, was published, and invited its vendor.
abbrev pub IsInOrder : ℕ → Sourcing → Bid → Type 0
IsInOrder now s b =
    (q : Rfq) × (lookup b.rfq_id s.rfqs ≡ some q)
    × (q.status ≢ RfqStatus.draft)
    × (is_invited b.vendor_id q ≡ true)
    × (b.status ≢ BidStatus.draft → WasSubmitted now b q)

-- The bid of an award is awarded, evaluated, and answers the request that the award names.
abbrev pub IsGranted : Sourcing → Award → Type 0
IsGranted s a =
    (b : Bid) × (q : Rfq) × (lookup a.bid_id s.bids ≡ some b)
    × (b.status ≡ BidStatus.awarded)
    × (lookup b.rfq_id s.rfqs ≡ some q)
    × (q.procurement_request_id ≡ a.procurement_request_id)
    × (is_evaluated a.bid_id s.evaluations ≡ true)

abbrev pub IsActive : Bid → Type 0
IsActive b = (b.status ≡ BidStatus.draft) ⊎ (b.status ≡ BidStatus.submitted)

pub record IsSound (now : ℕ) (s : Sourcing) : Type 0 where
  pub rfqs_keyed : IsKeyed s.rfqs
  pub bids_keyed : IsKeyed s.bids
  pub awards_keyed : IsKeyed s.awards
  pub totals : (k : ℕ) (b : Bid) → lookup k s.bids ≡ some b → HasTotal b
  pub in_order : (k : ℕ) (b : Bid) → lookup k s.bids ≡ some b → IsInOrder now s b
  pub granted : (k : ℕ) (a : Award) → lookup k s.awards ≡ some a → IsGranted s a
  pub one_award :
      (j k : ℕ) (a c : Award)
      → lookup j s.awards ≡ some a
      → lookup k s.awards ≡ some c
      → a.procurement_request_id ≡ c.procurement_request_id
      → j ≡ k
  pub one_active :
      (j k : ℕ) (b c : Bid)
      → lookup j s.bids ≡ some b
      → lookup k s.bids ≡ some c
      → IsActive b
      → IsActive c
      → b.rfq_id ≡ c.rfq_id
      → b.vendor_id ≡ c.vendor_id
      → j ≡ k

-- What every write to a request for quotation respects.
pub record Follows (now : ℕ) (q q' : Rfq) : Type 0 where
  pub same_request : q'.procurement_request_id ≡ q.procurement_request_id
  pub invitations : (v : ℕ) → is_invited v q ≡ true → is_invited v q' ≡ true
  pub opened : q.status ≢ RfqStatus.draft → q'.status ≢ RfqStatus.draft
  pub in_time : (t : ℕ) → t ≤ now → t ≤ q.closing_date → t ≤ q'.closing_date

any-append :
    (p : RfqVendor → Bool) (xs ys : List RfqVendor) → any p xs ≡ true → any p (xs ++ ys) ≡ true
any-append p [] ys h = cc
any-append p (x ∷ xs) ys h = ground (arith, any-append p xs ys)

any-respond :
    (v vendor now : ℕ) (xs : List RfqVendor)
    → any (λ x. x.vendor_id == v) (respond vendor now xs) ≡ any (λ x. x.vendor_id == v) xs
unfolding respond
any-respond v vendor now [] = refl
any-respond v vendor now (x ∷ xs) = ground (arith, any-respond v vendor now xs)

pub RfqMove-Follows : {now : ℕ} {q q' : Rfq} → RfqMove now q q' → Follows now q q'
RfqMove-Follows (edits q title description date o d) = record {
  same_request = refl;
  invitations = λ v h. h;
  opened = λ h. h;
  in_time = λ t h e. ground arith;
}
RfqMove-Follows (invites q vendor d n) = record {
  same_request = refl;
  invitations = λ v h. any-append (λ x. x.vendor_id == v) q.vendors _ h;
  opened = λ h. h;
  in_time = λ t h e. e;
}
RfqMove-Follows (publishes q d n) = record {
  same_request = refl;
  invitations = λ v h. h;
  opened = λ h. λ e. cc;
  in_time = λ t h e. e;
}
RfqMove-Follows (closes q d) = record {
  same_request = refl;
  invitations = λ v h. h;
  opened = λ h. λ e. cc;
  in_time = λ t h e. e;
}
RfqMove-Follows (cancels q d) = record {
  same_request = refl;
  invitations = λ v h. h;
  opened = λ h. λ e. cc;
  in_time = λ t h e. e;
}

pub respond-Follows :
    (now vendor : ℕ) (q : Rfq) → Follows now q (record q { vendors = respond vendor now q.vendors })
respond-Follows now vendor q = record {
  same_request = refl;
  invitations = λ v h. ground (arith, any-respond v vendor now q.vendors);
  opened = λ h. h;
  in_time = λ t h e. e;
}
