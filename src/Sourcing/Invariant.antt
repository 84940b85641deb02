-- ===== src/Sourcing/Invariant.antt =====
-- Every step of the sourcing process keeps the tables sound.
use enterprise_ai_procuremen.Prelude.{
  ℕ, ◌≡◌, ◌≢◌, ◌≤◌, inl, inr, refl, sym, subst, true, false, some, List, arith, ◌==◌, Bool-cases,
}
use enterprise_ai_procuremen.Store.{
  Table, lookup, insert, any_row, insert-IsKeyed, lookup-insert_self, lookup-insert_ne,
  any_row-lookup,
}
use enterprise_ai_procuremen.Schema.{BidStatus}
use enterprise_ai_procuremen.Sourcing.Schema.{
  Rfq, Bid, BidEvaluation, EvaluationCriteria, Award, Sourcing,
}
use enterprise_ai_procuremen.Bids.Repository.{mark_responded, rounded_total}
use enterprise_ai_procuremen.Sourcing.Process.{
  Step, opens, moves_rfq, removes_rfq, bids, edits_bid, removes_bid, submits, withdraws, evaluates,
  awards, with_bid, is_evaluated, KeepsDraft,
}
use enterprise_ai_procuremen.Sourcing.Soundness.{
  IsSound, IsGranted, RfqMove-Follows, respond-Follows,
}
use enterprise_ai_procuremen.Sourcing.RfqSteps.{
  with_rfq-IsSound, new_rfq-IsSound, without_rfq-IsSound,
}
use enterprise_ai_procuremen.Sourcing.BidSteps.{
  Continues, with_bid-IsSound, new_bid-IsSound, without_bid-IsSound,
}

abbrev status_change : BidStatus → Bid → Bid
status_change status b = record b { status = status }

-- A submitted bid that gets a status which is neither draft nor submitted.
decided-Continues :
    (now : ℕ) (s : Sourcing) (b : Bid) (status : BidStatus)
    → b.status ≡ BidStatus.submitted
    → Continues now s b (status_change status b)
decided-Continues now s b status d = record {
  same_rfq = refl;
  same_vendor = refl;
  not_awarded = λ h. cc;
  active = λ h. inr d;
  total = λ h. h;
  stamped = λ q lq sub h. sub (λ e. cc);
}

draft-Continues : (now : ℕ) (s : Sourcing) (b b' : Bid) → KeepsDraft b b' → Continues now s b b'
draft-Continues now s b b' (d, d', r, v, total) = record {
  total = total;
  same_rfq = r;
  same_vendor = v;
  not_awarded = λ h. cc;
  active = λ h. inl d;
  stamped = λ q lq sub h. absurd (h d');
}

submitted-Continues :
    (now total : ℕ) (s : Sourcing) (b : Bid) (q : Rfq)
    → b.status ≡ BidStatus.draft
    → lookup b.rfq_id s.rfqs ≡ some q
    → now ≤ q.closing_date
    → total ≡ rounded_total b.items
    → Continues now s b
        (record b { status = BidStatus.submitted; submitted_at = some now; total_amount = total })
submitted-Continues now total s b q d lq c sum = record {
  total = λ h. sum;
  same_rfq = refl;
  same_vendor = refl;
  not_awarded = λ h. cc;
  active = λ h. inl d;
  stamped = λ p lp sub h.
      let same : q ≡ p = ground arith in
      (now, refl, omega arith, subst (λ (x : Rfq). now ≤ x.closing_date) same c);
}

mark_responded-IsSound :
    (now rfq vendor : ℕ) (q : Rfq) (s : Sourcing)
    → lookup rfq s.rfqs ≡ some q
    → IsSound now s
    → IsSound now (mark_responded rfq vendor now s)
unfolding mark_responded
mark_responded-IsSound now rfq vendor q s l v =
    rw (l, mark_responded) (with_rfq-IsSound now rfq q _ s l (respond-Follows now vendor q) v)

evaluates-IsSound :
    (now : ℕ) (s : Sourcing) (vs : Table BidEvaluation) (cs : List EvaluationCriteria)
    → ((bid : ℕ) → is_evaluated bid s.evaluations ≡ true → is_evaluated bid vs ≡ true)
    → IsSound now s
    → IsSound now (record s { evaluations = vs; criteria = cs })
evaluates-IsSound now s vs cs keep v = record {
  rfqs_keyed = v.rfqs_keyed;
  bids_keyed = v.bids_keyed;
  awards_keyed = v.awards_keyed;
  totals = v.totals;
  in_order = v.in_order;
  granted = λ k a l.
      let (b, q, lb, aw, lq, rq, ev) = v.granted k a l in (b, q, lb, aw, lq, rq, keep a.bid_id ev);
  one_award = v.one_award;
  one_active = v.one_active;
}

module _ (now id : ℕ) (a : Award) (s : Sourcing) (v : IsSound now s) (g : IsGranted s a)
    (free : any_row (λ c. c.procurement_request_id == a.procurement_request_id) s.awards
      ≡ false) where
  other_request :
      (k : ℕ) (c : Award)
      → lookup k s.awards ≡ some c
      → c.procurement_request_id ≢ a.procurement_request_id
  other_request k c l same =
      let found =
        any_row-lookup (λ (x : Award). x.procurement_request_id == a.procurement_request_id) k c
          s.awards l (ground arith) in
      ground (arith, found)

  new_award-IsSound : IsSound now (record s { awards = insert id a s.awards })
  new_award-IsSound = record {
    rfqs_keyed = v.rfqs_keyed;
    bids_keyed = v.bids_keyed;
    awards_keyed = insert-IsKeyed id a s.awards v.awards_keyed;
    totals = v.totals;
    in_order = v.in_order;
    granted = λ k c l. elim (Bool-cases (k == id)) [
      | inl same ↦
          let here : a ≡ c = ground (arith, lookup-insert_self id a s.awards) in
          subst (IsGranted s) here g
      | inr other ↦ v.granted k c (ground (arith, lookup-insert_ne k id a s.awards))
    ];
    one_award = λ j k x y lx ly same. elim (Bool-cases (j == id)) [
      | inl jd ↦ elim (Bool-cases (k == id)) [
        | inl kd ↦ ground arith
        | inr kd ↦ absurd (
            other_request k y (ground (arith, lookup-insert_ne k id a s.awards))
              (ground (arith, lookup-insert_self id a s.awards)))
      ]
      | inr jd ↦ elim (Bool-cases (k == id)) [
        | inl kd ↦ absurd (
            other_request j x (ground (arith, lookup-insert_ne j id a s.awards))
              (ground (arith, lookup-insert_self id a s.awards)))
        | inr kd ↦
            v.one_award j k x y (ground (arith, lookup-insert_ne j id a s.awards))
              (ground (arith, lookup-insert_ne k id a s.awards)) same
      ]
    ];
    one_active = v.one_active;
  }

pub Step-IsSound : {now : ℕ} {s t : Sourcing} → Step now s t → IsSound now s → IsSound now t
Step-IsSound {now} (opens s id q r n lr ap d c) v = new_rfq-IsSound now id q s n v
Step-IsSound {now} (moves_rfq s id q q' l m) v =
    with_rfq-IsSound now id q q' s l (RfqMove-Follows m) v
Step-IsSound {now} (removes_rfq s id q l d) v = without_rfq-IsSound now id q s l d v
Step-IsSound {now} (bids s id b q n lq p c inv free d total) v =
    new_bid-IsSound now id b s v n free q lq p inv d total
Step-IsSound {now} (edits_bid s id b b' l k) v =
    with_bid-IsSound now id b b' s l (draft-Continues now s b b' k) v
Step-IsSound {now} (removes_bid s id b l d) v = without_bid-IsSound now id b s v l d
Step-IsSound {now} (submits s id b q total l d lq p c i sum) v =
    mark_responded-IsSound now b.rfq_id b.vendor_id q _ lq
      (with_bid-IsSound now id b _ s l (submitted-Continues now total s b q d lq c sum) v)
Step-IsSound {now} (withdraws s id b q l d lq nc nx c) v =
    with_bid-IsSound now id b _ s l (decided-Continues now s b BidStatus.withdrawn d) v
Step-IsSound {now} (evaluates s vs cs keep) v = evaluates-IsSound now s vs cs keep v
Step-IsSound {now} (awards s id a b q n l d lq rq ev free) v =
    let b' = status_change BidStatus.awarded b in
    let v' =
      with_bid-IsSound now a.bid_id b b' s l (decided-Continues now s b BidStatus.awarded d) v in
    new_award-IsSound now id a (with_bid a.bid_id b' s) v'
      (b', q, lookup-insert_self a.bid_id b' s.bids, refl, lq, sym rq, ev) free
