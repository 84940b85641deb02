-- ===== src/Approvals/History.antt =====
-- Workflows over any sequence of decisions, by any callers.
use enterprise_ai_procuremen.Prelude.{
  ℕ, ◌≡◌, ◌≢◌, Option, some, List, [], ◌∷◌, String, arith, ◌==◌, ==_iff, Bool-cases, inl, inr,
}
use enterprise_ai_procuremen.Store.{lookup, lookup-insert_ne}
use enterprise_ai_procuremen.Database.{Caller, Surroundings}
use enterprise_ai_procuremen.Approvals.Schema.{ApprovalWorkflow, WorkflowStatus, Approvals}
use enterprise_ai_procuremen.Approvals.Repository.{
  find_workflow, approve_step_row, reject_step_row, update_workflow, update_request,
}
use enterprise_ai_procuremen.Approvals.Service.{approve_step, reject_step}

pub data Decision : Type 0 where
  approves : Option String → Decision
  rejects : String → Decision

-- the tables after a decision on the workflow `id`, whether it succeeds or not
unfoldable pub decide : Surroundings → Caller → ℕ → Decision → Approvals → Approvals
decide env caller id (approves comments) s = (approve_step env caller id comments s).1
decide env caller id (rejects comments) s = (reject_step env caller id comments s).1

other_stays :
    (env : Surroundings) (caller : Caller) (id k : ℕ) (d : Decision) (s : Approvals)
    (w : ApprovalWorkflow)
    → lookup k s.workflows ≡ some w
    → k ≢ id
    → lookup k (decide env caller id d s).workflows ≡ some w
unfolding decide approve_step reject_step approve_step_row reject_step_row find_workflow
    update_workflow update_request
other_stays env caller id k (approves comments) s w e ne = grind (arith, lookup-insert_ne)
other_stays env caller id k (rejects comments) s w e ne = grind (arith, lookup-insert_ne)

closed_stays :
    (env : Surroundings) (caller : Caller) (id : ℕ) (d : Decision) (s : Approvals)
    (w : ApprovalWorkflow)
    → lookup id s.workflows ≡ some w
    → w.status ≢ WorkflowStatus.in_progress
    → lookup id (decide env caller id d s).workflows ≡ some w
unfolding decide approve_step reject_step find_workflow
closed_stays env caller id (approves comments) s w e ne = ground arith
closed_stays env caller id (rejects comments) s w e ne = ground arith

abbrev pub Call : Type 0
Call = Surroundings × Caller × ℕ × Decision

unfoldable pub run : List Call → Approvals → Approvals
run [] s = s
run ((env, caller, id, d) ∷ calls) s = run calls (decide env caller id d s)

-- No sequence of decisions changes a workflow that is approved or rejected.
pub closed_workflow_stays :
    (calls : List Call) (s : Approvals) (k : ℕ) (w : ApprovalWorkflow)
    → lookup k s.workflows ≡ some w
    → w.status ≢ WorkflowStatus.in_progress
    → lookup k (run calls s).workflows ≡ some w
unfolding run
closed_workflow_stays [] s k w e ne = e
closed_workflow_stays ((env, caller, id, d) ∷ calls) s k w e ne =
    closed_workflow_stays calls (decide env caller id d s) k w
      (elim (Bool-cases (k == id)) [
        | inl same ↦
            let p = (==_iff k id).0 same in rw p (closed_stays env caller id d s w (rw (← p) e) ne)
        | inr other ↦ other_stays env caller id k d s w e (ground arith)
      ])
      ne
