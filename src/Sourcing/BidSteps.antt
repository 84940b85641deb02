-- ===== src/Sourcing/BidSteps.antt =====
-- Writes to bids and awards keep the sourcing tables sound.
use enterprise_ai_procuremen.Prelude.{
  ℕ, ◌≡◌, ◌≢◌, inl, inr, refl, sym, subst, true, false, not, none, some, arith, ◌==◌, Bool-cases,
  ◌&&◌, ◌||◌,
}
use enterprise_ai_procuremen.Results.{◌===◌}
use enterprise_ai_procuremen.Store.{
  lookup, insert, erase, insert-IsKeyed, erase-IsKeyed, keep_rows-IsKeyed, lookup-insert_self,
  lookup-insert_ne, lookup-erase_ne, lookup-erase_self, lookup-keep_rows, any_row-keep_rows,
  any_row-lookup,
}
use enterprise_ai_procuremen.Schema.{BidStatus, bid_status_enum}
use enterprise_ai_procuremen.Sourcing.Schema.{Rfq, RfqStatus, Bid, BidEvaluation, Award, Sourcing}
use enterprise_ai_procuremen.Rfqs.Repository.{is_invited}
use enterprise_ai_procuremen.Bids.Repository.{find_active_by_rfq_and_vendor}
use enterprise_ai_procuremen.Sourcing.Process.{with_bid, without_bid, HasTotal}
use enterprise_ai_procuremen.Sourcing.Soundness.{
  IsSound, IsInOrder, IsGranted, WasSubmitted, IsActive,
}

-- What every write to a bid respects.
pub record Continues (now : ℕ) (s : Sourcing) (b b' : Bid) : Type 0 where
  pub same_rfq : b'.rfq_id ≡ b.rfq_id
  pub same_vendor : b'.vendor_id ≡ b.vendor_id
  pub not_awarded : b.status ≢ BidStatus.awarded
  pub active : IsActive b' → IsActive b
  pub total : HasTotal b → HasTotal b'
  pub stamped :
      (q : Rfq)
      → lookup b.rfq_id s.rfqs ≡ some q
      → (b.status ≢ BidStatus.draft → WasSubmitted now b q)
      → b'.status ≢ BidStatus.draft
      → WasSubmitted now b' q

module _ (now id : ℕ) (b b' : Bid) (s : Sourcing) (e : lookup id s.bids ≡ some b)
    (c : Continues now s b b') (v : IsSound now s) where
  IsInOrder-after : (k : ℕ) (x : Bid) → lookup k (insert id b' s.bids) ≡ some x → IsInOrder now s x
  IsInOrder-after k x l = elim (Bool-cases (k == id)) [
    | inl same ↦
        let here : b' ≡ x = ground (arith, lookup-insert_self id b' s.bids) in
        let (q, lq, nd, inv, sub) = v.in_order id b e in
        let there : IsInOrder now s b' =
          (q, rw (c.same_rfq) lq, nd, rw (c.same_vendor) inv, c.stamped q lq sub) in
        subst (IsInOrder now s) here there
    | inr other ↦ v.in_order k x (ground (arith, lookup-insert_ne k id b' s.bids))
  ]

  totals_after : (k : ℕ) (x : Bid) → lookup k (insert id b' s.bids) ≡ some x → HasTotal x
  totals_after k x l = elim (Bool-cases (k == id)) [
    | inl same ↦
        let here : b' ≡ x = ground (arith, lookup-insert_self id b' s.bids) in
        subst HasTotal here (c.total (v.totals id b e))
    | inr other ↦ v.totals k x (ground (arith, lookup-insert_ne k id b' s.bids))
  ]

  IsGranted-after : (a : Award) → IsGranted s a → IsGranted (with_bid id b' s) a
  IsGranted-after a (x, q, lx, aw, lq, rq, ev) =
      (x, q, ground (arith, lookup-insert_ne a.bid_id id b' s.bids, c.not_awarded), aw, lq, rq, ev)

  -- An active bid after the write was active before.
  before_write :
      (k : ℕ) (x : Bid)
      → lookup k (insert id b' s.bids) ≡ some x
      → IsActive x
      → (y : Bid) × (lookup k s.bids ≡ some y)
        × IsActive y
        × (y.rfq_id ≡ x.rfq_id)
        × (y.vendor_id ≡ x.vendor_id)
  before_write k x l h = elim (Bool-cases (k == id)) [
    | inl same ↦
        let here : b' ≡ x = ground (arith, lookup-insert_self id b' s.bids) in
        let up : IsActive b' = subst IsActive (sym here) h in
        (b, ground arith, c.active up, ground (arith, c.same_rfq), ground (arith, c.same_vendor))
    | inr other ↦ (x, ground (arith, lookup-insert_ne k id b' s.bids), h, refl, refl)
  ]

  pub with_bid-IsSound : IsSound now (with_bid id b' s)
  with_bid-IsSound = record {
    rfqs_keyed = v.rfqs_keyed;
    bids_keyed = insert-IsKeyed id b' s.bids v.bids_keyed;
    awards_keyed = v.awards_keyed;
    totals = totals_after;
    in_order = IsInOrder-after;
    granted = λ k a l. IsGranted-after a (v.granted k a l);
    one_award = v.one_award;
    one_active = λ j k x y lx ly ax ay same vendor.
        let (x', lx', ax', rx, vx) = before_write j x lx ax in
        let (y', ly', ay', ry, vy) = before_write k y ly ay in
        v.one_active j k x' y' lx' ly' ax' ay' (cc) (cc);
  }

module _ (now id : ℕ) (b : Bid) (s : Sourcing) (v : IsSound now s) (n : lookup id s.bids ≡ none)
    (free : find_active_by_rfq_and_vendor b.rfq_id b.vendor_id s ≡ false) where
  -- No active bid of the vendor is there.
  none_active :
      (k : ℕ) (x : Bid)
      → lookup k s.bids ≡ some x
      → IsActive x
      → x.rfq_id ≡ b.rfq_id
      → x.vendor_id ≢ b.vendor_id
  unfolding find_active_by_rfq_and_vendor
  none_active k x l h same vendor =
      let found =
        any_row-lookup
          (λ (y : Bid).
            (y.rfq_id == b.rfq_id)
            && (y.vendor_id == b.vendor_id)
            && ((y.status === BidStatus.draft) || (y.status === BidStatus.submitted)))
          k x s.bids l (ground arith) in
      ground (arith, found)

  one_active_after :
      (j k : ℕ) (x y : Bid)
      → lookup j (insert id b s.bids) ≡ some x
      → lookup k (insert id b s.bids) ≡ some y
      → IsActive x
      → IsActive y
      → x.rfq_id ≡ y.rfq_id
      → x.vendor_id ≡ y.vendor_id
      → j ≡ k
  one_active_after j k x y lx ly ax ay same vendor = elim (Bool-cases (j == id)) [
    | inl jd ↦ elim (Bool-cases (k == id)) [
      | inl kd ↦ ground arith
      | inr kd ↦ absurd (
          none_active k y (ground (arith, lookup-insert_ne k id b s.bids)) ay
            (ground (arith, lookup-insert_self id b s.bids))
            (ground (arith, lookup-insert_self id b s.bids)))
    ]
    | inr jd ↦ elim (Bool-cases (k == id)) [
      | inl kd ↦ absurd (
          none_active j x (ground (arith, lookup-insert_ne j id b s.bids)) ax
            (ground (arith, lookup-insert_self id b s.bids))
            (ground (arith, lookup-insert_self id b s.bids)))
      | inr kd ↦
          v.one_active j k x y (ground (arith, lookup-insert_ne j id b s.bids))
            (ground (arith, lookup-insert_ne k id b s.bids)) ax ay same vendor
    ]
  ]

  pub new_bid-IsSound :
      (q : Rfq)
      → lookup b.rfq_id s.rfqs ≡ some q
      → q.status ≡ RfqStatus.published
      → is_invited b.vendor_id q ≡ true
      → b.status ≡ BidStatus.draft
      → HasTotal b
      → IsSound now (with_bid id b s)
  new_bid-IsSound q lq p inv d total = record {
    rfqs_keyed = v.rfqs_keyed;
    bids_keyed = insert-IsKeyed id b s.bids v.bids_keyed;
    awards_keyed = v.awards_keyed;
    totals = λ k x l. elim (Bool-cases (k == id)) [
      | inl same ↦
          let here : b ≡ x = ground (arith, lookup-insert_self id b s.bids) in
          subst HasTotal here total
      | inr other ↦ v.totals k x (ground (arith, lookup-insert_ne k id b s.bids))
    ];
    in_order = λ k x l. elim (Bool-cases (k == id)) [
      | inl same ↦
          let here : b ≡ x = ground (arith, lookup-insert_self id b s.bids) in
          let there : IsInOrder now s b = (q, lq, (λ h. ground arith), inv, (λ h. absurd (h d))) in
          subst (IsInOrder now s) here there
      | inr other ↦ v.in_order k x (ground (arith, lookup-insert_ne k id b s.bids))
    ];
    granted = λ k a l.
        let (x, p, lx, aw, lp, rq, ev) = v.granted k a l in
        (x, p, ground (arith, lookup-insert_ne a.bid_id id b s.bids), aw, lp, rq, ev);
    one_award = v.one_award;
    one_active = one_active_after;
  }

module _ (now id : ℕ) (b : Bid) (s : Sourcing) (v : IsSound now s) (e : lookup id s.bids ≡ some b)
    (d : b.status ≡ BidStatus.draft) where
  old_bid : (k : ℕ) (x : Bid) → lookup k (erase id s.bids) ≡ some x → lookup k s.bids ≡ some x
  old_bid k x l = elim (Bool-cases (k == id)) [
    | inl same ↦ absurd (ground (arith, lookup-erase_self id s.bids v.bids_keyed))
    | inr other ↦ ground (arith, lookup-erase_ne k id s.bids)
  ]

  old_award :
      (k : ℕ) (a : Award) → lookup k (without_bid id s).awards ≡ some a → lookup k s.awards ≡ some a
  old_award k a l =
      ground
        (arith, lookup-keep_rows (λ (c : Award). not (c.bid_id == id)) k s.awards v.awards_keyed)

  pub without_bid-IsSound : IsSound now (without_bid id s)
  without_bid-IsSound = record {
    rfqs_keyed = v.rfqs_keyed;
    bids_keyed = erase-IsKeyed id s.bids v.bids_keyed;
    awards_keyed = keep_rows-IsKeyed _ s.awards v.awards_keyed;
    totals = λ k x l. v.totals k x (old_bid k x l);
    in_order = λ k x l. v.in_order k x (old_bid k x l);
    granted = λ k a l.
        let (x, p, lx, aw, lp, rq, ev) = v.granted k a (old_award k a l) in
        let ne : a.bid_id ≢ id = λ h. ground arith in
        (
          x,
          p,
          ground (arith, lookup-erase_ne a.bid_id id s.bids),
          aw,
          lp,
          rq,
          any_row-keep_rows (λ (w : BidEvaluation). w.bid_id == a.bid_id)
              (λ (w : BidEvaluation). not (w.bid_id == id)) s.evaluations
              (λ w h. ground (arith, ne)) ev,
        );
    one_award =
        λ j k a c la lc same. v.one_award j k a c (old_award j a la) (old_award k c lc) same;
    one_active = λ j k x y lx ly. v.one_active j k x y (old_bid j x lx) (old_bid k y ly);
  }
