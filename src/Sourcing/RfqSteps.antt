-- ===== src/Sourcing/RfqSteps.antt =====
-- Writes to requests for quotation keep the sourcing tables sound.
use enterprise_ai_procuremen.Prelude.{
  ℕ, ◌≡◌, ◌≢◌, ◌≤◌, inl, inr, refl, subst, not, none, some, arith, ◌==◌, Bool-cases,
}
use enterprise_ai_procuremen.Store.{
  lookup, insert, erase, insert-IsKeyed, erase-IsKeyed, keep_rows-IsKeyed, lookup-insert_self,
  lookup-insert_ne, lookup-erase_ne, lookup-keep_rows, any_row-keep_rows,
}
use enterprise_ai_procuremen.Sourcing.Schema.{Rfq, RfqStatus, Bid, BidEvaluation, Award, Sourcing}
use enterprise_ai_procuremen.Rfqs.Repository.{answers_other}
use enterprise_ai_procuremen.Sourcing.Process.{with_rfq, without_rfq}
use enterprise_ai_procuremen.Sourcing.Soundness.{IsSound, Follows}

Follows-refl : (now : ℕ) (q : Rfq) → Follows now q q
Follows-refl now q = record {
  same_request = refl;
  invitations = λ v h. h;
  opened = λ h. h;
  in_time = λ t h e. e;
}

pub later-IsSound : {now now' : ℕ} {s : Sourcing} → now ≤ now' → IsSound now s → IsSound now' s
later-IsSound {now} {now'} {s} le v = record {
  rfqs_keyed = v.rfqs_keyed;
  bids_keyed = v.bids_keyed;
  awards_keyed = v.awards_keyed;
  totals = v.totals;
  in_order = λ k b l.
      let (q, lq, nd, inv, sub) = v.in_order k b l in
      (q, lq, nd, inv, λ h. let (t, e, n, c) = sub h in (t, e, omega arith, c));
  granted = v.granted;
  one_award = v.one_award;
  one_active = v.one_active;
}

module _ (now id : ℕ) (q q' : Rfq) (s : Sourcing) (e : lookup id s.rfqs ≡ some q)
    (f : Follows now q q') where
  -- A request for quotation is found again after the write, as it follows from before.
  found_after :
      (j : ℕ) (p : Rfq)
      → lookup j s.rfqs ≡ some p
      → (p' : Rfq) × (lookup j (insert id q' s.rfqs) ≡ some p') × Follows now p p'
  found_after j p l = elim (Bool-cases (j == id)) [
    | inl same ↦
        let k : q ≡ p = ground arith in
        (q', ground (arith, lookup-insert_self id q' s.rfqs), subst (λ x. Follows now x q') k f)
    | inr other ↦ (p, ground (arith, lookup-insert_ne j id q' s.rfqs), Follows-refl now p)
  ]

  pub with_rfq-IsSound : IsSound now s → IsSound now (with_rfq id q' s)
  with_rfq-IsSound v = record {
    rfqs_keyed = insert-IsKeyed id q' s.rfqs v.rfqs_keyed;
    bids_keyed = v.bids_keyed;
    awards_keyed = v.awards_keyed;
    totals = v.totals;
    in_order = λ k b l.
        let (p, lp, nd, inv, sub) = v.in_order k b l in
        let (p', l', g) = found_after b.rfq_id p lp in
        (
          p',
          l',
          g.opened nd,
          g.invitations b.vendor_id inv,
          λ h. let (t, st, n, c) = sub h in (t, st, n, g.in_time t n c),
        );
    granted = λ k a l.
        let (b, p, lb, aw, lp, rq, ev) = v.granted k a l in
        let (p', l', g) = found_after b.rfq_id p lp in
        (b, p', lb, aw, l', ground (arith, g.same_request), ev);
    one_award = v.one_award;
    one_active = v.one_active;
  }

pub new_rfq-IsSound :
    (now id : ℕ) (q : Rfq) (s : Sourcing)
    → lookup id s.rfqs ≡ none
    → IsSound now s
    → IsSound now (with_rfq id q s)
new_rfq-IsSound now id q s n v =
    let keep = λ (j : ℕ) (p : Rfq) (l : lookup j s.rfqs ≡ some p).
      let r : lookup j (insert id q s.rfqs) ≡ some p =
        ground (arith, lookup-insert_ne j id q s.rfqs) in
      r in
    record {
      rfqs_keyed = insert-IsKeyed id q s.rfqs v.rfqs_keyed;
      bids_keyed = v.bids_keyed;
      awards_keyed = v.awards_keyed;
      totals = v.totals;
      in_order = λ k b l.
          let (p, lp, nd, inv, sub) = v.in_order k b l in (p, keep b.rfq_id p lp, nd, inv, sub);
      granted = λ k a l.
          let (b, p, lb, aw, lp, rq, ev) = v.granted k a l in
          (b, p, lb, aw, keep b.rfq_id p lp, rq, ev);
      one_award = v.one_award;
      one_active = v.one_active;
    }

module _ (now id : ℕ) (q : Rfq) (s : Sourcing) (e : lookup id s.rfqs ≡ some q)
    (d : q.status ≡ RfqStatus.draft) (v : IsSound now s) where
  -- No bid answers a draft.
  answers_ne : (k : ℕ) (b : Bid) → lookup k s.bids ≡ some b → b.rfq_id ≢ id
  answers_ne k b l same = let (p, lp, nd, _, _) = v.in_order k b l in nd (ground arith)

  kept_bid :
      (k : ℕ) (b : Bid) → lookup k s.bids ≡ some b → lookup k (without_rfq id s).bids ≡ some b
  kept_bid k b l = ground (
    arith,
    lookup-keep_rows (λ (c : Bid). not (c.rfq_id == id)) k s.bids v.bids_keyed,
    answers_ne k b l,
  )

  old_bid : (k : ℕ) (b : Bid) → lookup k (without_rfq id s).bids ≡ some b → lookup k s.bids ≡ some b
  old_bid k b l =
      ground (arith, lookup-keep_rows (λ (c : Bid). not (c.rfq_id == id)) k s.bids v.bids_keyed)

  old_award :
      (k : ℕ) (a : Award) → lookup k (without_rfq id s).awards ≡ some a → lookup k s.awards ≡ some a
  old_award k a l = ground (
    arith,
    lookup-keep_rows (λ (c : Award). answers_other id s.bids c.bid_id) k s.awards v.awards_keyed,
  )

  kept_rfq :
      (k : ℕ) (b : Bid) (p : Rfq)
      → lookup k s.bids ≡ some b
      → lookup b.rfq_id s.rfqs ≡ some p
      → lookup b.rfq_id (erase id s.rfqs) ≡ some p
  kept_rfq k b p l lp = ground (arith, lookup-erase_ne b.rfq_id id s.rfqs, answers_ne k b l)

  -- The deletion of a draft takes no bid with it.
  pub without_rfq-IsSound : IsSound now (without_rfq id s)
  without_rfq-IsSound = record {
    rfqs_keyed = erase-IsKeyed id s.rfqs v.rfqs_keyed;
    bids_keyed = keep_rows-IsKeyed _ s.bids v.bids_keyed;
    awards_keyed = keep_rows-IsKeyed _ s.awards v.awards_keyed;
    totals = λ k b l. v.totals k b (old_bid k b l);
    in_order = λ k b l.
        let lb = old_bid k b l in
        let (p, lp, nd, inv, sub) = v.in_order k b lb in (p, kept_rfq k b p lb lp, nd, inv, sub);
    granted = λ k a l.
        let (b, p, lb, aw, lp, rq, ev) = v.granted k a (old_award k a l) in
        (
          b,
          p,
          kept_bid a.bid_id b lb,
          aw,
          kept_rfq a.bid_id b p lb lp,
          rq,
          any_row-keep_rows (λ (w : BidEvaluation). w.bid_id == a.bid_id)
              (λ (w : BidEvaluation). answers_other id s.bids w.bid_id) s.evaluations
              (λ w h. ground (arith, answers_ne a.bid_id b lb)) ev,
        );
    one_award =
        λ j k a c la lc same. v.one_award j k a c (old_award j a la) (old_award k c lc) same;
    one_active = λ j k b c lb lc x y same vendor.
        v.one_active j k b c (old_bid j b lb) (old_bid k c lc) x y same vendor;
  }
