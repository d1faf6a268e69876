-- ===== src/Execution/Frame.antt =====
-- apps/control-plane-api/src/execution/execution-service.ts: what only writes steps and artifacts keeps
-- whatever does not depend on them.
use employee_agent_platform.Prelude.{
  ℕ, String, ◌≡◌, refl, true, ◌||◌, ◌&&◌, not, arith, Option, none, some, List, [], ◌∷◌, any, ◌==◌,
  is_some,
}
use employee_agent_platform.Prelude.Result.{
  ok, err, Post, Post-if, Post-option, Post-bind, Post-then, Post-value, Post-error,
}
use employee_agent_platform.Lifecycle.{
  AgentRunStatus, run_eq, can_transition_run, RunStepStatus, RuntimeEventType, can_transition_step,
}
use employee_agent_platform.Execution.{
  Run, move_run, transition_run, Step, ExecutionError, find_step, find_approval, insert_step,
  transition_step, update_step,
}
use employee_agent_platform.Execution.Decisions.{step_is, move_linked, is_open, cancel_steps}
use employee_agent_platform.Execution.Ingest.{
  Elsewhere, Envelope, is_approved, resume, start_step, step_event, register, effects,
}

-- Where a run moves, it moves along the table or stays.
abbrev pub Moves : AgentRunStatus → Option String → ℕ → Run → Run → Type 0
Moves to reason now r r' =
    ((run_eq r.status to || can_transition_run r.status to) ≡ true)
    × (r' ≡ move_run to reason now r)

pub transition_run-Moves :
    (to : AgentRunStatus) (reason : Option String) (now : ℕ) (r : Run)
    → Post (Moves to reason now r) (transition_run to reason now r)
unfolding transition_run
transition_run-Moves to reason now r =
    Post-if (not (run_eq r.status to) && not (can_transition_run r.status to)) _
      (ok (move_run to reason now r)) (λ _. Post-error _)
      (λ e. Post-value _ (ground (arith, e), refl))

module _ (P : Run → Type 0)
    (steps_kept : (steps : List Step) (r : Run) → P r → P (record r { steps = steps })) where
  pub insert_step-keeps :
      (id : ℕ) (status : RunStepStatus) (now : ℕ) (r : Run) → P r → P (insert_step id status now r)
  unfolding insert_step
  insert_step-keeps id status now r h = steps_kept _ r h

  pub transition_step-keeps :
      (id : ℕ) (to : RunStepStatus) (now : ℕ) (r : Run) → P r → Post P (transition_step id to now r)
  unfolding transition_step
  transition_step-keeps id to now r h =
      Post-option (find_step id r.steps) _ _ (λ _. Post-error _)
        (λ t _.
          Post-if (can_transition_step t.status to)
            (ok (record r { steps = update_step id to now r.steps }))
            (err ExecutionError.illegal_step_transition)
            (λ _. Post-value _ (steps_kept (update_step id to now r.steps) r h))
            (λ _. Post-error _))

  pub move_linked-keeps :
      (step_id : Option ℕ) (from to : RunStepStatus) (now : ℕ) (r : Run)
      → P r
      → Post P (move_linked step_id from to now r)
  unfolding move_linked
  move_linked-keeps none from to now r h = Post-value r h
  move_linked-keeps (some id) from to now r h =
      Post-then (step_is id from r) _
        (λ b. Post-if _ _ _ (λ _. transition_step-keeps id to now r h) (λ _. Post-value r h))

  pub cancel_steps-keeps : (l : List Step) (now : ℕ) (r : Run) → P r → Post P (cancel_steps l now r)
  unfolding cancel_steps
  cancel_steps-keeps [] now r h = Post-value r h
  cancel_steps-keeps (t ∷ l) now r h =
      Post-bind _ _
        (Post-if (is_open t.status) (transition_step t.id RunStepStatus.cancelled now r) (ok r)
          (λ _. transition_step-keeps t.id _ now r h) (λ _. Post-value r h))
        (λ r₁ h₁. cancel_steps-keeps l now r₁ h₁)

  pub resume-keeps : (v : Envelope) (now : ℕ) (r : Run) → P r → Post P (resume v now r)
  unfolding resume
  resume-keeps v now r h =
      Post-option (find_approval v.approval_id r.approvals) _ _ (λ _. Post-error _)
        (λ a _.
          Post-if (is_approved a.status)
            (move_linked a.step_id RunStepStatus.pending RunStepStatus.running now r) _
            (λ _. move_linked-keeps a.step_id _ _ now r h) (λ _. Post-error _))

  pub start_step-keeps :
      (w : Elsewhere) (step_id : Option ℕ) (now : ℕ) (r : Run)
      → P r
      → Post P (start_step w step_id now r)
  unfolding start_step
  start_step-keeps w none now r h = Post-error _
  start_step-keeps w (some id) now r h =
      Post-if (is_some (find_step id r.steps) || w.step_taken id) _ _ (λ _. Post-error _)
        (λ _. Post-value _ (insert_step-keeps id _ now r h))

  pub step_event-keeps :
      (step_id : Option ℕ) (to : Option RunStepStatus) (now : ℕ) (r : Run)
      → P r
      → Post P (step_event step_id to now r)
  unfolding step_event
  step_event-keeps none to now r h = Post-value r h
  step_event-keeps (some id) none now r h =
      Post-if (is_some (find_step id r.steps)) _ _ (λ _. Post-value r h) (λ _. Post-error _)
  step_event-keeps (some id) (some to) now r h = transition_step-keeps id to now r h

module _ (P : Run → Type 0)
    (steps_kept : (steps : List Step) (r : Run) → P r → P (record r { steps = steps }))
    (artifacts_kept : (l : List ℕ) (r : Run) → P r → P (record r { artifacts = l })) where
  pub register-keeps : (w : Elsewhere) (id : ℕ) (r : Run) → P r → Post P (register w id r)
  unfolding register
  register-keeps w id r h =
      Post-if (any (λ a. a == id) r.artifacts || w.artifact_taken id) _ _ (λ _. Post-error _)
        (λ _.
          Post-if (w.artifact_refuses id) _ _ (λ _. Post-error _)
            (λ _. Post-value _ (artifacts_kept _ r h)))

  pub effects-keeps :
      (type : RuntimeEventType) (w : Elsewhere) (v : Envelope) (now : ℕ) (r : Run)
      → P r
      → Post P (effects type w v now r)
  unfolding effects
  effects-keeps RuntimeEventType.run_resumed w v now r h =
      Post-bind _ _ (resume-keeps P steps_kept v now r h)
        (λ r₁ h₁. step_event-keeps P steps_kept v.step_id none now r₁ h₁)
  effects-keeps RuntimeEventType.step_started w v now r h =
      start_step-keeps P steps_kept w v.step_id now r h
  effects-keeps RuntimeEventType.step_completed w v now r h =
      step_event-keeps P steps_kept v.step_id _ now r h
  effects-keeps RuntimeEventType.step_failed w v now r h =
      step_event-keeps P steps_kept v.step_id _ now r h
  effects-keeps RuntimeEventType.artifact_created w v now r h =
      Post-bind _ _ (step_event-keeps P steps_kept v.step_id none now r h)
        (λ r₁ h₁. register-keeps w v.artifact_id r₁ h₁)
  effects-keeps _ w v now r h = step_event-keeps P steps_kept v.step_id none now r h
