-- ===== src/Approvals/Ladder.antt =====
-- A workflow climbs its four levels in order.
use enterprise_ai_procuremen.Prelude.{
  ℕ, ◌+◌, ◌≡◌, ◌≤◌, ◌<◌, ◌∙◌, refl, List, [], ◌∷◌, Option, String, All, arith, leb, Bool-cases, inl,
  inr,
}
use enterprise_ai_procuremen.Approvals.Schema.{
  ApprovalStep, ApprovalStatus, ApprovalWorkflow, WorkflowStatus,
}
use enterprise_ai_procuremen.Approvals.Repository.{
  advanced, refused, set_step, skip_above, approved_step, rejected_step,
}
use enterprise_ai_procuremen.Approvals.Service.{new_workflow}
use enterprise_ai_procuremen.Approvals.Process.{levels}

abbrev pub ApprovedBelow : ℕ → List ApprovalStep → Type 0
ApprovedBelow n steps = All (λ p. p.level < n → p.status ≡ ApprovalStatus.approved) steps

-- Four steps; those below the current level are approved, and all are if the workflow is.
pub record IsSound (w : ApprovalWorkflow) : Type 0 where
  pub four : levels w.steps ≡ 1 ∷ 2 ∷ 3 ∷ 4 ∷ []
  pub low : 1 ≤ w.current_level
  pub high : w.current_level ≤ 4
  pub below : ApprovedBelow w.current_level w.steps
  pub complete :
      w.status ≡ WorkflowStatus.approved → All (λ p. p.status ≡ ApprovalStatus.approved) w.steps

pub levels-approved :
    (n now : ℕ) (comments : Option String) (steps : List ApprovalStep)
    → levels (set_step n (approved_step comments now) steps) ≡ levels steps
unfolding set_step
levels-approved n now comments [] = refl
levels-approved n now comments (p ∷ ps) = ground (arith, levels-approved n now comments ps)

levels-refused :
    (n now : ℕ) (comments : String) (steps : List ApprovalStep)
    → levels (skip_above n (set_step n (rejected_step comments now) steps)) ≡ levels steps
unfolding set_step skip_above
levels-refused n now comments [] = refl
levels-refused n now comments (p ∷ ps) = ground (arith, levels-refused n now comments ps)

below-approved :
    (n now : ℕ) (comments : Option String) (steps : List ApprovalStep)
    → ApprovedBelow n steps
    → ApprovedBelow (n + 1) (set_step n (approved_step comments now) steps)
unfolding set_step
below-approved n now comments [] h = tt
below-approved n now comments (p ∷ ps) h =
    (λ lt. ground arith, below-approved n now comments ps h.1)

below-refused :
    (n now : ℕ) (comments : String) (steps : List ApprovalStep)
    → ApprovedBelow n steps
    → ApprovedBelow n (skip_above n (set_step n (rejected_step comments now) steps))
unfolding set_step skip_above
below-refused n now comments [] h = tt
below-refused n now comments (p ∷ ps) h = (λ lt. ground arith, below-refused n now comments ps h.1)

-- Below 5 is below every level that there is.
complete-below :
    (steps : List ApprovalStep)
    → All (λ n. n ≤ 4) (levels steps)
    → ApprovedBelow 5 steps
    → All (λ p. p.status ≡ ApprovalStatus.approved) steps
complete-below [] l h = tt
complete-below (p ∷ ps) l h = (h.0 (omega (arith, l.0)), complete-below ps l.1 h.1)

pub four-high :
    (steps : List ApprovalStep)
    → levels steps ≡ 1 ∷ 2 ∷ 3 ∷ 4 ∷ []
    → All (λ n. n ≤ 4) (levels steps)
four-high steps e = rw e (omega arith)

new_below : (steps : List ApprovalStep) → All (λ n. 1 ≤ n) (levels steps) → ApprovedBelow 1 steps
new_below [] h = tt
new_below (p ∷ ps) h = (λ lt. absurd (omega (arith, h.0)), new_below ps h.1)

pub new_workflow-IsSound :
    (request_id : ℕ) (steps : List ApprovalStep)
    → levels steps ≡ 1 ∷ 2 ∷ 3 ∷ 4 ∷ []
    → IsSound (new_workflow request_id steps)
new_workflow-IsSound request_id steps e = record {
  four = e;
  low = omega arith;
  high = omega arith;
  below = new_below steps (rw e (omega arith));
  complete = λ c. cc;
}

below_all :
    (n : ℕ) (steps : List ApprovalStep)
    → All (λ p. p.status ≡ ApprovalStatus.approved) steps
    → ApprovedBelow n steps
below_all n [] h = tt
below_all n (p ∷ ps) h = (λ lt. h.0, below_all n ps h.1)

current-IsSound :
    (now : ℕ) (comments : Option String) (w : ApprovalWorkflow)
    → IsSound w
    → w.status ≡ WorkflowStatus.in_progress
    → IsSound (advanced w.current_level comments now w)
unfolding advanced
current-IsSound now comments w v open_ =
    let four = levels-approved w.current_level now comments w.steps ∙ v.four in
    let next = below-approved w.current_level now comments w.steps v.below in
    elim (Bool-cases (leb 4 w.current_level)) [
      | inl last ↦ rw last (
          let top : w.current_level + 1 ≡ 5 = ground (arith, v.high) in
          let all = complete-below _ (four-high _ four) (rw top at next) in
          record {
            four = four;
            low = v.low;
            high = v.high;
            below = below_all w.current_level _ all;
            complete = λ _. all;
          })
      | inr more ↦ rw more (record {
        four = four;
        low = omega arith;
        high = ground (arith, v.high);
        below = next;
        complete = λ c. cc;
      })
    ]

-- Approval at the current level keeps a workflow sound.
pub advanced-IsSound :
    (level now : ℕ) (comments : Option String) (w : ApprovalWorkflow)
    → IsSound w
    → w.status ≡ WorkflowStatus.in_progress
    → level ≡ w.current_level
    → IsSound (advanced level comments now w)
advanced-IsSound level now comments w v open_ e = rw e (current-IsSound now comments w v open_)

-- Rejection at the current level keeps a workflow sound.
pub refused-IsSound :
    (level now : ℕ) (comments : String) (w : ApprovalWorkflow)
    → IsSound w
    → level ≡ w.current_level
    → IsSound (refused level comments now w)
unfolding refused
refused-IsSound level now comments w v e = record {
  four = levels-refused level now comments w.steps ∙ v.four;
  low = v.low;
  high = v.high;
  below = rw (← e) (below-refused level now comments w.steps (rw e v.below));
  complete = λ c. cc;
}
