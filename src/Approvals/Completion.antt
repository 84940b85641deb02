-- ===== src/Approvals/Completion.antt =====
-- An administrator can bring every workflow that was started to its end.
use enterprise_ai_procuremen.Prelude.{
  ℕ, ◌+◌, ◌≡◌, ◌⊎◌, ◌≤◌, ◌∙◌, inl, inr, refl, sym, ap, subst, true, false, Option, some, List, [],
  ◌∷◌, map, length, any, find, String, All, arith, ◌==◌, Bool-cases, leb,
}
use enterprise_ai_procuremen.Store.{lookup, lookup-insert_self}
use enterprise_ai_procuremen.Schema.{admin, role_enum}
use enterprise_ai_procuremen.Database.{Caller, Surroundings}
use enterprise_ai_procuremen.Approvals.Schema.{
  ProcurementRequest, ProcurementStatus, ApprovalStep, ApprovalStatus, ApprovalWorkflow,
  WorkflowStatus, Approvals,
}
use enterprise_ai_procuremen.Approvals.Repository.{advanced, set_step, approved_step}
use enterprise_ai_procuremen.Approvals.Service.{current_step, approve_step}
use enterprise_ai_procuremen.Approvals.Lifecycle.{approve_step_iff, closed}
use enterprise_ai_procuremen.Approvals.History.{decide, run, approves}
use enterprise_ai_procuremen.Approvals.Process.{levels}
use enterprise_ai_procuremen.Approvals.Ladder.{levels-approved}

-- The steps from a level on are pending.
abbrev pub PendingFrom : ℕ → List ApprovalStep → Type 0
PendingFrom n steps = All (λ p. n ≤ p.level → p.status ≡ ApprovalStatus.pending) steps

-- A workflow in progress whose steps from its current level on are pending.
pub record IsReady (w : ApprovalWorkflow) : Type 0 where
  pub four : levels w.steps ≡ 1 ∷ 2 ∷ 3 ∷ 4 ∷ []
  pub open_ : w.status ≡ WorkflowStatus.in_progress
  pub low : 1 ≤ w.current_level
  pub high : w.current_level ≤ 4
  pub pending : PendingFrom w.current_level w.steps

step-at :
    (n : ℕ) (steps : List ApprovalStep)
    → any (λ k. k == n) (levels steps) ≡ true
    → PendingFrom n steps
    → (p : ApprovalStep) × (find (λ p. p.level == n) steps ≡ some p)
      × (p.level ≡ n)
      × (p.status ≡ ApprovalStatus.pending)
step-at n [] h a = cc
step-at n (p ∷ ps) h a = elim (Bool-cases (p.level == n)) [
  | inl same ↦ (p, rw (same, find) refl, ground arith, a.0 (ground arith))
  | inr other ↦ let (q, f, l, d) = step-at n ps (rw other at h) a.1 in (q, rw (other, find) f, l, d)
]

pending_above :
    (n now : ℕ) (comments : Option String) (steps : List ApprovalStep)
    → PendingFrom n steps
    → PendingFrom (n + 1) (set_step n (approved_step comments now) steps)
unfolding set_step
pending_above n now comments [] a = tt
pending_above n now comments (p ∷ ps) a =
    (λ le. ground (arith, a.0), pending_above n now comments ps a.1)

advanced-same_request :
    (level now : ℕ) (comments : Option String) (w : ApprovalWorkflow)
    → (advanced level comments now w).procurement_request_id ≡ w.procurement_request_id
unfolding advanced
advanced-same_request level now comments w = ground arith

advanced-IsReady :
    (level now : ℕ) (comments : Option String) (w : ApprovalWorkflow)
    → IsReady w
    → level ≡ w.current_level
    → w.current_level ≤ 3
    → IsReady (advanced level comments now w)
      × ((advanced level comments now w).current_level ≡ w.current_level + 1)
unfolding advanced
advanced-IsReady level now comments w v e le =
    let shut : leb 4 w.current_level ≡ false = ground arith in
    rw (shut) (
      record {
        four = levels-approved level now comments w.steps ∙ v.four;
        open_ = v.open_;
        low = omega arith;
        high = omega arith;
        pending = rw e (pending_above w.current_level now comments w.steps v.pending);
      },
      refl,
    )

closed-request :
    (k id : ℕ) (w : ApprovalWorkflow) (r : ProcurementRequest) (status : ProcurementStatus)
    (s : Approvals)
    → w.procurement_request_id ≡ k
    → lookup k (closed id w r status s).requests ≡ some (record r { status = status })
closed-request k id w r status s e =
    ground
      (arith, lookup-insert_self w.procurement_request_id (record r { status = status }) s.requests)

module _ (caller : Caller) (id : ℕ) (env : Surroundings) (comments : Option String) (s : Approvals)
    (w : ApprovalWorkflow) (r : ProcurementRequest) (a : caller.role ≡ admin)
    (e : lookup id s.workflows ≡ some w) (f : lookup w.procurement_request_id s.requests ≡ some r)
    (o : r.organisation_id ≡ caller.organisation_id) (v : IsReady w) where
  -- The workflow is ready again a level higher, or its request is approved.
  abbrev Climbs : Approvals → Type 0
  Climbs t =
      ((w' : ApprovalWorkflow) × (w.current_level ≤ 3)
        × (lookup id t.workflows ≡ some w')
        × (lookup w.procurement_request_id t.requests ≡ some r)
        × IsReady w'
        × (w'.current_level ≡ w.current_level + 1)
        × (w'.procurement_request_id ≡ w.procurement_request_id))
      ⊎ ((4 ≤ w.current_level)
          × (lookup w.procurement_request_id t.requests
              ≡ some (record r { status = ProcurementStatus.approved })))

  approval_at :
      (step : ApprovalStep)
      → current_step w ≡ some step
      → step.level ≡ w.current_level
      → step.status ≡ ApprovalStatus.pending
      → Climbs (approve_step env caller id comments s).1
  approval_at step c l d =
      let w' = advanced step.level comments env.now w in
      let up = advanced-IsReady step.level env.now comments w v l in
      let same = advanced-same_request step.level env.now comments w in
      elim (approve_step_iff env caller id s w r step e f c comments) [
        | inl (_, le, _, _, t) ↦
            subst Climbs (sym (ap (λ q. q.1) t))
              (inl (w', le, lookup-insert_self id w' s.workflows, f, (up le).0, (up le).1, same))
        | inr (inl (_, ge, _, t)) ↦ subst Climbs (sym (ap (λ q. q.1) t)) (
            inr (
              ge,
              closed-request w.procurement_request_id id w' r ProcurementStatus.approved s same,
            ))
        | inr (inr (may_not, _, _)) ↦ absurd (ground (arith, v.open_))
      ]

  one_approval : Climbs (decide env caller id (approves comments) s)
  unfolding decide
  one_approval =
      let (step, c, l, d) =
        step-at w.current_level w.steps (rw v.four (ground (arith, v.low, v.high))) v.pending in
      approval_at step c l d

-- From a workflow in progress whose steps from its current level on are pending, as many approvals by
-- an administrator of the organisation as levels are left, at any times and with any comments, approve
-- the request.
pub run-approved :
    (caller : Caller) (id : ℕ) (visits : List (Surroundings × Option String)) (s : Approvals)
    (w : ApprovalWorkflow) (r : ProcurementRequest)
    → caller.role ≡ admin
    → lookup id s.workflows ≡ some w
    → lookup w.procurement_request_id s.requests ≡ some r
    → r.organisation_id ≡ caller.organisation_id
    → IsReady w
    → w.current_level + length visits ≡ 5
    → lookup w.procurement_request_id
        (run (map (λ v. (v.0, caller, id, approves v.1)) visits) s).requests
      ≡ some (record r { status = ProcurementStatus.approved })
unfolding run
run-approved caller id [] s w r a e f o v n = absurd (omega (arith, v.high))
run-approved caller id ((env, comments) ∷ []) s w r a e f o v n =
    elim (one_approval caller id env comments s w r a e f o v) [
      | inl (w', le, _, _, _, _, _) ↦ absurd (omega arith)
      | inr (ge, t) ↦ t
    ]
run-approved caller id ((env, comments) ∷ x ∷ visits) s w r a e f o v n =
    elim (one_approval caller id env comments s w r a e f o v) [
      | inl (w', le, e', f', v', up, same) ↦ rw (← same) (
          run-approved caller id (x ∷ visits) (decide env caller id (approves comments) s) w' r a e'
            (rw same f') o v' (omega arith))
      | inr (ge, t) ↦ absurd (omega arith)
    ]
