-- ===== src/Approvals/Soundness.antt =====
-- A request is approved only with a workflow whose four steps are approved.
use enterprise_ai_procuremen.Prelude.{
  ℕ, String, ◌≡◌, ◌≢◌, ◌≤◌, inl, inr, refl, subst, not, Option, none, some, List, [], ◌∷◌, arith,
  find, ◌==◌, Bool-cases,
}
use enterprise_ai_procuremen.Relations.{here, next}
use enterprise_ai_procuremen.Store.{
  lookup, insert, IsKeyed, insert-IsKeyed, erase-IsKeyed, keep_rows-IsKeyed, lookup-insert_self,
  lookup-insert_ne, lookup-erase_ne, lookup-erase_self, lookup-keep_rows,
}
use enterprise_ai_procuremen.Approvals.Schema.{
  ProcurementRequest, ProcurementStatus, ApprovalStep, ApprovalWorkflow, WorkflowStatus, Approvals,
}
use enterprise_ai_procuremen.Approvals.Repository.{advanced}
use enterprise_ai_procuremen.Approvals.Service.{current_step, new_workflow}
use enterprise_ai_procuremen.Approvals.Lifecycle.{closed}
use enterprise_ai_procuremen.Approvals.Process.{
  Step, drafts, edits, removes, starts, climbs, concludes, refuses, Steps, with_request,
  without_request, with_workflow,
}
use enterprise_ai_procuremen.Approvals.Ladder.{
  IsSound, new_workflow-IsSound, advanced-IsSound, refused-IsSound,
}

-- an approved workflow of the request
abbrev pub IsBacked : ℕ → Approvals → Type 0
IsBacked id s =
    (k : ℕ) × (w : ApprovalWorkflow) × (lookup k s.workflows ≡ some w)
    × (w.procurement_request_id ≡ id)
    × (w.status ≡ WorkflowStatus.approved)

pub record AllSound (s : Approvals) : Type 0 where
  pub requests_keyed : IsKeyed s.requests
  pub workflows_keyed : IsKeyed s.workflows
  pub sound : (k : ℕ) (w : ApprovalWorkflow) → lookup k s.workflows ≡ some w → IsSound w
  pub backed :
      (id : ℕ) (r : ProcurementRequest)
      → lookup id s.requests ≡ some r
      → r.status ≡ ProcurementStatus.approved
      → IsBacked id s

current_step-level :
    (w : ApprovalWorkflow) (step : ApprovalStep)
    → current_step w ≡ some step
    → step.level ≡ w.current_level
current_step-level w step h = find-level w.current_level w.steps step h
  where
    find-level :
        (n : ℕ) (steps : List ApprovalStep) (step : ApprovalStep)
        → find (λ p. p.level == n) steps ≡ some step
        → step.level ≡ n
    find-level n [] step h = cc
    find-level n (p ∷ ps) step h = ground (arith, find-level n ps step)

-- the request of another workflow is still backed after a write to one in progress
IsBacked-insert :
    (id k : ℕ) (w w' : ApprovalWorkflow) (s t : Approvals)
    → t.workflows ≡ insert k w' s.workflows
    → lookup k s.workflows ≡ some w
    → w.status ≡ WorkflowStatus.in_progress
    → IsBacked id s
    → IsBacked id t
IsBacked-insert id k w w' s t e l open_ (j, v, lj, rq, ap) =
    (j, v, ground (arith, lookup-insert_ne j k w' s.workflows), rq, ap)

IsSound-insert :
    (s t : Approvals) (k : ℕ) (w : ApprovalWorkflow)
    → AllSound s
    → t.workflows ≡ insert k w s.workflows
    → IsSound w
    → (j : ℕ) (v : ApprovalWorkflow) → lookup j t.workflows ≡ some v
    → IsSound v
IsSound-insert s t k w a e h j v l = elim (Bool-cases (j == k)) [
  | inl same ↦
      let q : w ≡ v = ground (arith, lookup-insert_self k w s.workflows) in subst IsSound q h
  | inr other ↦ a.sound j v (ground (arith, lookup-insert_ne j k w s.workflows))
]

-- A request that is written with another status than approved leaves the others backed.
IsBacked-insert_request :
    (s t : Approvals) (id : ℕ) (r : ProcurementRequest)
    → AllSound s
    → t.requests ≡ insert id r s.requests
    → r.status ≢ ProcurementStatus.approved
    → ((j : ℕ) → IsBacked j s → IsBacked j t)
    → (j : ℕ) (q : ProcurementRequest) → lookup j t.requests ≡ some q
    → q.status ≡ ProcurementStatus.approved
    → IsBacked j t
IsBacked-insert_request s t id r a e ne keep j q l ap = elim (Bool-cases (j == id)) [
  | inl same ↦ absurd (ground (arith, lookup-insert_self id r s.requests))
  | inr other ↦ keep j (a.backed j q (ground (arith, lookup-insert_ne j id r s.requests)) ap)
]

-- A request in the tables is not the one that is written.
with_request-AllSound :
    (s : Approvals) (id : ℕ) (r : ProcurementRequest)
    → AllSound s
    → r.status ≢ ProcurementStatus.approved
    → AllSound (with_request id r s)
with_request-AllSound s id r a ne = record {
  requests_keyed = insert-IsKeyed id r s.requests a.requests_keyed;
  workflows_keyed = a.workflows_keyed;
  sound = a.sound;
  backed = IsBacked-insert_request s (with_request id r s) id r a refl ne (λ j b. b);
}

without_request-AllSound : (s : Approvals) (id : ℕ) → AllSound s → AllSound (without_request id s)
without_request-AllSound s id a =
    let keep = λ (w : ApprovalWorkflow). not (w.procurement_request_id == id) in
    record {
      requests_keyed = erase-IsKeyed id s.requests a.requests_keyed;
      workflows_keyed = keep_rows-IsKeyed keep s.workflows a.workflows_keyed;
      sound = λ k w l.
          a.sound k w (ground (arith, lookup-keep_rows keep k s.workflows a.workflows_keyed));
      backed = λ j q l ap. elim (Bool-cases (j == id)) [
        | inl same ↦ absurd (ground (arith, lookup-erase_self id s.requests a.requests_keyed))
        | inr other ↦
            let (k, w, lk, rq, c) =
              a.backed j q (ground (arith, lookup-erase_ne j id s.requests)) ap in
            (k, w, ground (arith, lookup-keep_rows keep k s.workflows a.workflows_keyed), rq, c)
      ];
    }

starts-AllSound :
    (s : Approvals) (id : ℕ) (w : ApprovalWorkflow)
    → AllSound s
    → lookup id s.workflows ≡ none
    → IsSound w
    → AllSound (with_workflow id w s)
starts-AllSound s id w a n v = record {
  requests_keyed = a.requests_keyed;
  workflows_keyed = insert-IsKeyed id w s.workflows a.workflows_keyed;
  sound = IsSound-insert s (with_workflow id w s) id w a refl v;
  backed = λ j q l ap.
      let (k, u, lk, rq, c) = a.backed j q l ap in
      (k, u, ground (arith, lookup-insert_ne k id w s.workflows), rq, c);
}

-- A sound workflow written over one in progress, with the status of its request.
closed-AllSound :
    (s : Approvals) (id : ℕ) (w w' : ApprovalWorkflow) (r : ProcurementRequest)
    (status : ProcurementStatus)
    → AllSound s
    → lookup id s.workflows ≡ some w
    → w.status ≡ WorkflowStatus.in_progress
    → IsSound w'
    → (status ≡ ProcurementStatus.approved → w'.status ≡ WorkflowStatus.approved)
    → AllSound (closed id w' r status s)
closed-AllSound s id w w' r status a l o v ap =
    let t = closed id w' r status s in
    let q = w'.procurement_request_id in
    record {
      requests_keyed = insert-IsKeyed q _ s.requests a.requests_keyed;
      workflows_keyed = insert-IsKeyed id w' s.workflows a.workflows_keyed;
      sound = IsSound-insert s t id w' a refl v;
      backed = λ j p lj c. elim (Bool-cases (j == q)) [
        | inl same ↦ (
          id,
          w',
          lookup-insert_self id w' s.workflows,
          ground arith,
          ap (ground (arith, lookup-insert_self q (record r { status = status }) s.requests)),
        )
        | inr other ↦ IsBacked-insert j id w w' s t refl l o (
            a.backed j p
              (ground (arith, lookup-insert_ne j q (record r { status = status }) s.requests)) c)
      ];
    }

climbs-AllSound :
    (s : Approvals) (id : ℕ) (w w' : ApprovalWorkflow)
    → AllSound s
    → lookup id s.workflows ≡ some w
    → w.status ≡ WorkflowStatus.in_progress
    → IsSound w'
    → AllSound (with_workflow id w' s)
climbs-AllSound s id w w' a l o v = record {
  requests_keyed = a.requests_keyed;
  workflows_keyed = insert-IsKeyed id w' s.workflows a.workflows_keyed;
  sound = IsSound-insert s (with_workflow id w' s) id w' a refl v;
  backed =
      λ j q lj c. IsBacked-insert j id w w' s (with_workflow id w' s) refl l o (a.backed j q lj c);
}

advanced-approved :
    (level now : ℕ) (comments : Option String) (w : ApprovalWorkflow)
    → 4 ≤ w.current_level
    → (advanced level comments now w).status ≡ WorkflowStatus.approved
unfolding advanced
advanced-approved level now comments w h = ground arith

-- Every step of the process keeps the tables sound.
pub Step-AllSound : {s t : Approvals} → Step s t → AllSound s → AllSound t
Step-AllSound (drafts s id r n d) a = with_request-AllSound s id r a (ground arith)
Step-AllSound (edits s id r r' l d d' o) a = with_request-AllSound s id r' a (ground arith)
Step-AllSound (removes s id r l d) a = without_request-AllSound s id a
Step-AllSound (starts s id q r steps l d n f four pending) a =
    starts-AllSound s id (new_workflow q steps) a n (new_workflow-IsSound q steps four)
Step-AllSound (climbs s caller id w step comments now (l, o, c, p, m) h) a =
    climbs-AllSound s id w _ a l o
      (advanced-IsSound step.level now comments w (a.sound id w l) o (current_step-level w step c))
Step-AllSound (concludes s caller id w step comments now r (l, o, c, p, m) h f) a =
    closed-AllSound s id w _ r _ a l o
      (advanced-IsSound step.level now comments w (a.sound id w l) o (current_step-level w step c))
      (λ _. advanced-approved step.level now comments w h)
Step-AllSound (refuses s caller id w step comments now r (l, o, c, p, m) f) a =
    closed-AllSound s id w _ r _ a l o
      (refused-IsSound step.level now comments w (a.sound id w l) (current_step-level w step c))
      (λ e. cc)

pub Steps-AllSound : {s t : Approvals} → Steps s t → AllSound s → AllSound t
Steps-AllSound here a = a
Steps-AllSound (next p q) a = Step-AllSound q (Steps-AllSound p a)
