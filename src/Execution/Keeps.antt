-- ===== src/Execution/Keeps.antt =====
-- apps/control-plane-api/src/execution/execution-service.ts: every method keeps the invariant of a run.
pub mod Ingestion
use employee_agent_platform.Prelude.{
  ℕ, String, ◌+◌, ◌≡◌, refl, Bool, true, false, ◌&&◌, ◌||◌, not, Option, none, some, List, [], ◌∷◌,
  ◌==◌, is_some, if◌then◌else◌, length, arith, subst, sym,
}
use employee_agent_platform.Prelude.Result.{
  Result, ok, err, ◌>>=◌, Post, Post-if, Post-option, Post-bind, Post-map, Post-ok, Post-value,
  Post-error,
}
use employee_agent_platform.Lifecycle.{
  AgentRunStatus, RunStepStatus, run_eq, can_transition_run, RuntimeEventType, decide_runtime_event,
  RuntimeEventDecision, accepted, refused,
}
use employee_agent_platform.Execution.{
  Run, Event, Step, Stamp, ExecutionError, AgentEventType, control_plane, approval_expired,
  find_step, find_approval, append_control, transition_run, move_run, transition_step,
}
use employee_agent_platform.Execution.Decisions.{
  Verdict, approve, reject, move_linked, apply_verdict, on_approval_decided, pause_for_approval,
  cancel_steps, cancel_live, cancel_run, pause_running, on_approval_expired, Request, decided,
  expires, pauses, cancels, handle, step_is, is_open, verdict_event,
}
use employee_agent_platform.Execution.Ingest.{
  Elsewhere, Envelope, resume, start_step, step_event, register, effects, advance, accept,
  record_new, record_runtime_event, Ingested, recorded, duplicate,
}
use employee_agent_platform.Execution.Frame.{
  transition_run-Moves, transition_step-keeps, move_linked-keeps, cancel_steps-keeps,
}
use employee_agent_platform.Execution.Invariant.{
  IsValidAt, IsValid, IsValid-at, append_control-IsValidAt, move_run-IsValidAt, steps-IsValidAt,
}

module _ (P : Run → Type 0)
    (steps_kept : (steps : List Step) (r : Run) → P r → P (record r { steps = steps }))
    (event_kept : (id now : ℕ) (type : AgentEventType) (step_id : Option ℕ) (r : Run)
      → P r
      → P (append_control id now type step_id r))
    (move_kept : (to : AgentRunStatus) (reason : Option String) (now : ℕ) (r : Run)
      → P r
      → (run_eq r.status to || can_transition_run r.status to) ≡ true
      → P (move_run to reason now r)) where
  transition_run-keeps :
      (to : AgentRunStatus) (reason : Option String) (now : ℕ) (r : Run)
      → P r
      → Post P (transition_run to reason now r)
  transition_run-keeps to reason now r h =
      Post-map _ (λ r' m. subst P (sym m.1) (move_kept to reason now r h m.0))
        (transition_run-Moves to reason now r)

  apply_verdict-keeps :
      (v : Verdict) (step_id : Option ℕ) (s : Stamp) (r : Run)
      → P r
      → Post P (apply_verdict v step_id s r)
  unfolding apply_verdict
  apply_verdict-keeps approve step_id s r h =
      Post-bind _ _ (move_linked-keeps P steps_kept step_id _ _ s.now r h)
        (λ r₁ h₁. transition_run-keeps _ _ s.now r₁ h₁)
  apply_verdict-keeps reject step_id s r h =
      Post-bind _ _ (move_linked-keeps P steps_kept step_id _ _ s.now r h) (λ r₁ h₁.
        Post-bind _ _ (transition_run-keeps _ _ s.now r₁ h₁)
          (λ r₂ h₂. Post-value _ (event_kept _ s.now _ none r₂ h₂)))

  cancel_live-keeps :
      (reason : Option String) (s : Stamp) (r : Run) → P r → Post P (cancel_live reason s r)
  unfolding cancel_live
  cancel_live-keeps reason s r h =
      Post-bind _ _ (cancel_steps-keeps P steps_kept r.steps s.now r h) (λ r₁ h₁.
        Post-bind _ _ (transition_run-keeps _ reason s.now r₁ h₁)
          (λ r₂ h₂. Post-value _ (event_kept _ s.now _ none r₂ h₂)))

  cancel_run-keeps :
      (reason : Option String) (s : Stamp) (r : Run) → P r → Post P (cancel_run reason s r)
  unfolding cancel_run
  cancel_run-keeps reason s r h =
      Post-if (can_transition_run r.status AgentRunStatus.cancelled) (cancel_live reason s r) _
        (λ _. cancel_live-keeps reason s r h) (λ _. Post-error _)

  on_approval_decided-keeps :
      (approval_id : ℕ) (v : Verdict) (s : Stamp) (r : Run)
      → P r
      → Post P (on_approval_decided approval_id v s r)
  unfolding on_approval_decided
  on_approval_decided-keeps approval_id v s r h =
      Post-option (find_approval approval_id r.approvals) _ _ (λ _. Post-value r h)
        (λ a _.
          Post-if (run_eq r.status AgentRunStatus.waiting_for_approval)
            (apply_verdict v a.step_id s
              (append_control s.first_id s.now (verdict_event v) a.step_id r))
            (ok (append_control s.first_id s.now (verdict_event v) a.step_id r))
            (λ _. apply_verdict-keeps v a.step_id s _ (event_kept _ s.now _ a.step_id r h))
            (λ _. Post-value _ (event_kept _ s.now _ a.step_id r h)))

  on_approval_expired-keeps :
      (approval_id : ℕ) (s : Stamp) (r : Run) → P r → Post P (on_approval_expired approval_id s r)
  unfolding on_approval_expired
  on_approval_expired-keeps approval_id s r h =
      Post-option (find_approval approval_id r.approvals) _ _ (λ _. Post-value r h)
        (λ a _.
          Post-if (run_eq r.status AgentRunStatus.waiting_for_approval)
            (cancel_run (some "APPROVAL_EXPIRED") s
              (append_control s.first_id s.now (control_plane approval_expired) a.step_id r))
            (ok (append_control s.first_id s.now (control_plane approval_expired) a.step_id r))
            (λ _. cancel_run-keeps _ s _ (event_kept _ s.now _ a.step_id r h))
            (λ _. Post-value _ (event_kept _ s.now _ a.step_id r h)))

  pause_running-keeps :
      (step_id : ℕ) (s : Stamp) (r : Run) → P r → Post P (pause_running step_id s r)
  unfolding pause_running
  pause_running-keeps step_id s r h =
      Post-bind _ _ (transition_step-keeps P steps_kept step_id _ s.now r h) (λ r₁ h₁.
        Post-bind _ _ (transition_run-keeps _ _ s.now _ (event_kept _ s.now _ (some step_id) r₁ h₁))
          (λ r₂ h₂. Post-value _ (event_kept _ s.now _ none r₂ h₂)))

  pause_for_approval-keeps :
      (step_id : ℕ) (s : Stamp) (r : Run) → P r → Post P (pause_for_approval step_id s r)
  unfolding pause_for_approval
  pause_for_approval-keeps step_id s r h =
      Post-if (run_eq r.status AgentRunStatus.running) (pause_running step_id s r) _
        (λ _. pause_running-keeps step_id s r h) (λ _. Post-error _)

  pub handle-keeps : (q : Request) (s : Stamp) (r : Run) → P r → Post P (handle q s r)
  unfolding handle
  handle-keeps (decided a v) s r h = on_approval_decided-keeps a v s r h
  handle-keeps (expires a) s r h = on_approval_expired-keeps a s r h
  handle-keeps (pauses t) s r h = pause_for_approval-keeps t s r h
  handle-keeps (cancels m) s r h = cancel_run-keeps m s r h

-- A request that succeeds keeps the run valid, and does not touch the runtime's sequence: its events
-- are numbered without gaps, the runtime's numbers among them are consecutive and end in the run's
-- `runtime_sequence`, the time of completion is set exactly in a final status, and the stop of the run
-- was announced exactly once if it is final and not at all otherwise.
pub handle-IsValid :
    (q : Request) (s : Stamp) (r r' : Run)
    → IsValid r
    → handle q s r ≡ ok r'
    → IsValid r' × (r'.runtime_sequence ≡ r.runtime_sequence)
handle-IsValid q s r r' h e = (IsValid-at n r' valid, valid.reached)
  where
    n : ℕ
    n = r.runtime_sequence

    valid : IsValidAt 0 n r'
    valid =
        Post-ok _ r'
          (handle-keeps (IsValidAt 0 n) (steps-IsValidAt 0 n) (append_control-IsValidAt 0 n)
            (move_run-IsValidAt 0 n) q s r h)
          e
