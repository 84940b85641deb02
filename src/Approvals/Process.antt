-- ===== src/Approvals/Process.antt =====
-- The approval process as a step relation on the tables: what may ever happen to a request and to its
-- workflow, and what holds in every state that the steps reach.
use enterprise_ai_procuremen.Prelude.{
  ℕ, ◌≡◌, ◌⊎◌, ◌≤◌, not, false, Option, none, some, List, [], ◌∷◌, map, String, All, ◌==◌,
}
use enterprise_ai_procuremen.Relations.{Chain}
use enterprise_ai_procuremen.Store.{lookup, insert, erase, keep_rows, any_row}
use enterprise_ai_procuremen.Schema.{admin}
use enterprise_ai_procuremen.Database.{Caller}
use enterprise_ai_procuremen.Approvals.Schema.{
  ProcurementRequest, ProcurementStatus, ApprovalStep, ApprovalStatus, ApprovalWorkflow,
  WorkflowStatus, Approvals,
}
use enterprise_ai_procuremen.Approvals.Repository.{advanced, refused}
use enterprise_ai_procuremen.Approvals.Service.{current_step, new_workflow}
use enterprise_ai_procuremen.Approvals.Lifecycle.{closed}

abbrev pub with_request : ℕ → ProcurementRequest → Approvals → Approvals
with_request id r s = record s { requests = insert id r s.requests }

abbrev pub without_request : ℕ → Approvals → Approvals
without_request id s = record s {
  requests = erase id s.requests;
  workflows = keep_rows (λ w. not (w.procurement_request_id == id)) s.workflows;
}

abbrev pub with_workflow : ℕ → ApprovalWorkflow → Approvals → Approvals
with_workflow id w s = record s { workflows = insert id w s.workflows }

-- the levels of the steps
abbrev pub levels : List ApprovalStep → List ℕ
levels steps = map (λ p. p.level) steps

-- The caller acts on the pending step at the current level of a workflow that is in progress.
abbrev pub ActsOn : Caller → ℕ → ApprovalWorkflow → ApprovalStep → Approvals → Type 0
ActsOn caller id w step s =
    (lookup id s.workflows ≡ some w)
    × (w.status ≡ WorkflowStatus.in_progress)
    × (current_step w ≡ some step)
    × (step.status ≡ ApprovalStatus.pending)
    × ((caller.user_id ≡ step.approver_id) ⊎ (caller.role ≡ admin))

pub data Step : Approvals → Approvals → Type 0 where
  drafts :
      (s : Approvals) (id : ℕ) (r : ProcurementRequest)
      → lookup id s.requests ≡ none
      → r.status ≡ ProcurementStatus.draft
      → Step s (with_request id r s)
  edits :
      (s : Approvals) (id : ℕ) (r r' : ProcurementRequest)
      → lookup id s.requests ≡ some r
      → r.status ≡ ProcurementStatus.draft
      → (r'.status ≡ ProcurementStatus.draft) ⊎ (r'.status ≡ ProcurementStatus.submitted)
      → r'.organisation_id ≡ r.organisation_id
      → Step s (with_request id r' s)
  removes :
      (s : Approvals) (id : ℕ) (r : ProcurementRequest)
      → lookup id s.requests ≡ some r
      → r.status ≡ ProcurementStatus.draft
      → Step s (without_request id s)
  starts :
      (s : Approvals) (id request_id : ℕ) (r : ProcurementRequest) (steps : List ApprovalStep)
      → lookup request_id s.requests ≡ some r
      → r.status ≡ ProcurementStatus.submitted
      → lookup id s.workflows ≡ none
      → any_row (λ w. w.procurement_request_id == request_id) s.workflows ≡ false
      → levels steps ≡ 1 ∷ 2 ∷ 3 ∷ 4 ∷ []
      → All (λ p. p.status ≡ ApprovalStatus.pending) steps
      → Step s (with_workflow id (new_workflow request_id steps) s)
  climbs :
      (s : Approvals) (caller : Caller) (id : ℕ) (w : ApprovalWorkflow) (step : ApprovalStep)
      (comments : Option String) (now : ℕ)
      → ActsOn caller id w step s
      → w.current_level ≤ 3
      → Step s (with_workflow id (advanced step.level comments now w) s)
  concludes :
      (s : Approvals) (caller : Caller) (id : ℕ) (w : ApprovalWorkflow) (step : ApprovalStep)
      (comments : Option String) (now : ℕ) (r : ProcurementRequest)
      → ActsOn caller id w step s
      → 4 ≤ w.current_level
      → lookup w.procurement_request_id s.requests ≡ some r
      → Step s (closed id (advanced step.level comments now w) r ProcurementStatus.approved s)
  refuses :
      (s : Approvals) (caller : Caller) (id : ℕ) (w : ApprovalWorkflow) (step : ApprovalStep)
      (comments : String) (now : ℕ) (r : ProcurementRequest)
      → ActsOn caller id w step s
      → lookup w.procurement_request_id s.requests ≡ some r
      → Step s (closed id (refused step.level comments now w) r ProcurementStatus.rejected s)

abbrev pub Steps : Approvals → Approvals → Type 0
Steps = Chain Step
