-- ===== src/Procurement/Refinement.antt =====
-- Requests of any kind, by any callers, as steps of the approval process.
use enterprise_ai_procuremen.Prelude.{ℕ, ◌≡◌, All, Option, some, List, [], ◌∷◌, String}
use enterprise_ai_procuremen.Relations.{Chain-trans, here, next}
use enterprise_ai_procuremen.Store.{lookup, IsKeyed, insert-IsKeyed, erase-IsKeyed}
use enterprise_ai_procuremen.Database.{Surroundings, Caller}
use enterprise_ai_procuremen.Approvals.Schema.{
  ProcurementRequest, ProcurementStatus, ApprovalStatus, ApprovalWorkflow, WorkflowStatus,
  Approvals,
}
use enterprise_ai_procuremen.Approvals.Repository.{advanced, refused}
use enterprise_ai_procuremen.Approvals.Service.{start_workflow, approve_step, reject_step}
use enterprise_ai_procuremen.Approvals.Process.{
  levels, Step, Steps, drafts, edits, removes, starts, climbs, concludes, refuses,
}
use enterprise_ai_procuremen.Approvals.Soundness.{AllSound, Steps-AllSound}
use enterprise_ai_procuremen.Procurement.Service.{
  CreateProcurementRequestDto, UpdateProcurementRequestDto, CreateProcurementItemDto, create_draft,
  update_draft, delete_draft, submit, add_line_item, remove_line_item,
}
use enterprise_ai_procuremen.Procurement.Submission.{start_workflow-Steps}
use enterprise_ai_procuremen.Procurement.Writes.{
  create_draft-Steps, update_draft-Steps, delete_draft-Steps, submit-Steps, add_line_item-Steps,
  remove_line_item-Steps,
}
use enterprise_ai_procuremen.Procurement.Decisions.{approve_step-Steps, reject_step-Steps}

-- the endpoints of the procurement and the approval controllers that write
pub data Request : Type 0 where
  creates : CreateProcurementRequestDto → Request
  updates : ℕ → UpdateProcurementRequestDto → Request
  deletes submits starts_workflow : ℕ → Request
  adds_item : ℕ → CreateProcurementItemDto → Request
  removes_item : ℕ → Request
  approves : ℕ → Option String → Request
  rejects : ℕ → String → Request

-- the tables after a request, whether it succeeds or not
unfoldable pub perform : Surroundings → Caller → Request → Approvals → Approvals
perform env c (creates dto) s = (create_draft env c.organisation_id c.user_id dto s).1
perform env c (updates id dto) s = (update_draft c.organisation_id id dto s).1
perform env c (deletes id) s = (delete_draft c.organisation_id id s).1
perform env c (submits id) s = (submit env c.organisation_id id s).1
perform env c (starts_workflow id) s = (start_workflow env c.organisation_id id s).1
perform env c (adds_item id dto) s = (add_line_item env c.organisation_id id dto s).1
perform env c (removes_item item) s = (remove_line_item c.organisation_id item s).1
perform env c (approves id comments) s = (approve_step env c id comments s).1
perform env c (rejects id comments) s = (reject_step env c id comments s).1

abbrev pub Call : Type 0
Call = Surroundings × Caller × Request

unfoldable pub run : List Call → Approvals → Approvals
run [] s = s
run ((env, caller, r) ∷ calls) s = run calls (perform env caller r s)

perform-Steps :
    (env : Surroundings) (caller : Caller) (r : Request) (s : Approvals)
    → IsKeyed s.requests
    → Steps s (perform env caller r s)
unfolding perform
perform-Steps env c (creates dto) s h = create_draft-Steps env c.organisation_id c.user_id dto s
perform-Steps env c (updates id dto) s h = update_draft-Steps c.organisation_id id s dto
perform-Steps env c (deletes id) s h = delete_draft-Steps c.organisation_id id s
perform-Steps env c (submits id) s h = submit-Steps env c.organisation_id id s
perform-Steps env c (starts_workflow id) s h = start_workflow-Steps env c.organisation_id id s
perform-Steps env c (adds_item id dto) s h = add_line_item-Steps env c.organisation_id id s dto
perform-Steps env c (removes_item item) s h = remove_line_item-Steps c.organisation_id item s h
perform-Steps env c (approves id comments) s h = approve_step-Steps env c id s comments
perform-Steps env c (rejects id comments) s h = reject_step-Steps env c id s comments

Step-IsKeyed : {s t : Approvals} → Step s t → IsKeyed s.requests → IsKeyed t.requests
Step-IsKeyed (drafts s id r _ _) h = insert-IsKeyed id r s.requests h
Step-IsKeyed (edits s id _ r _ _ _ _) h = insert-IsKeyed id r s.requests h
Step-IsKeyed (removes s id _ _ _) h = erase-IsKeyed id s.requests h
Step-IsKeyed (starts s _ _ _ _ _ _ _ _ _ _) h = h
Step-IsKeyed (climbs s _ _ _ _ _ _ _ _) h = h
Step-IsKeyed (concludes s _ _ w step comments now _ _ _ _) h =
    insert-IsKeyed (advanced step.level comments now w).procurement_request_id _ s.requests h
Step-IsKeyed (refuses s _ _ w step comments now _ _ _) h =
    insert-IsKeyed (refused step.level comments now w).procurement_request_id _ s.requests h

Steps-IsKeyed : {s t : Approvals} → Steps s t → IsKeyed s.requests → IsKeyed t.requests
Steps-IsKeyed here h = h
Steps-IsKeyed (next p q) h = Step-IsKeyed q (Steps-IsKeyed p h)

-- Whatever requests any callers send, the tables change only by steps of the approval process, if no
-- primary key of a procurement request stands twice at the start.
pub run-Steps : (calls : List Call) (s : Approvals) → IsKeyed s.requests → Steps s (run calls s)
unfolding run
run-Steps [] s h = here
run-Steps ((env, caller, r) ∷ calls) s h =
    let first = perform-Steps env caller r s h in
    Chain-trans first (run-Steps calls (perform env caller r s) (Steps-IsKeyed first h))

-- an approved workflow of the request, with four steps that are all approved
abbrev pub IsApprovedByAll : ℕ → Approvals → Type 0
IsApprovedByAll id s =
    (k : ℕ) × (w : ApprovalWorkflow) × (lookup k s.workflows ≡ some w)
    × (w.procurement_request_id ≡ id)
    × (w.status ≡ WorkflowStatus.approved)
    × (levels w.steps ≡ 1 ∷ 2 ∷ 3 ∷ 4 ∷ [])
    × All (λ p. p.status ≡ ApprovalStatus.approved) w.steps

-- Over any sequence of requests by any callers, from sound tables, a procurement request that is
-- approved has an approved workflow with steps at the levels 1 to 4, each of them approved.
pub approved-IsApprovedByAll :
    (calls : List Call) (s : Approvals) (id : ℕ) (r : ProcurementRequest)
    → AllSound s
    → lookup id (run calls s).requests ≡ some r
    → r.status ≡ ProcurementStatus.approved
    → IsApprovedByAll id (run calls s)
approved-IsApprovedByAll calls s id r a l p =
    let a' = Steps-AllSound (run-Steps calls s a.requests_keyed) a in
    let (k, w, lk, rq, c) = a'.backed id r l p in
    let v = a'.sound k w lk in (k, w, lk, rq, c, v.four, v.complete c)
