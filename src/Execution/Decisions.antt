-- ===== src/Execution/Decisions.antt =====
-- apps/control-plane-api/src/execution/execution-service.ts: what approvals and cancellations do to a
-- run.
use employee_agent_platform.Prelude.{
  ℕ, String, Bool, ◌||◌, Option, none, some, List, [], ◌∷◌, if◌then◌else◌,
}
use employee_agent_platform.Prelude.Result.{Result, ok, err, ◌>>=◌}
use employee_agent_platform.Lifecycle.{
  AgentRunStatus, RunStepStatus, RuntimeEventType, run_eq, step_eq, can_transition_run,
  approval_granted, approval_rejected,
}
use employee_agent_platform.Execution.{
  Run, Step, Stamp, ExecutionError, step_not_found, run_not_running, run_terminal, AgentEventType,
  control_plane, runtime, approval_requested, approval_approved, approval_was_rejected,
  approval_expired, find_approval, find_step, append_control, transition_run, transition_step,
}

-- `(await this.stepRow(…)).status === status`, for a step that the run may not have.
abbrev pub step_is : ℕ → RunStepStatus → Run → Result ExecutionError Bool
step_is id status r = elim (find_step id r.steps) [
  | none ↦ err step_not_found
  | some t ↦ ok (step_eq t.status status)
]

-- Moves the step of an approval if there is one and it has the status that the decision expects.
unfoldable pub move_linked :
    Option ℕ → RunStepStatus → RunStepStatus → ℕ → Run → Result ExecutionError Run
move_linked none from to now r = ok r
move_linked (some id) from to now r =
    step_is id from r >>= λ waits. if waits then transition_step id to now r else ok r

pub data Verdict : Type 0 where
  approve reject : Verdict

abbrev pub verdict_event : Verdict → AgentEventType
verdict_event approve = control_plane approval_approved
verdict_event reject = control_plane approval_was_rejected

unfoldable pub apply_verdict : Verdict → Option ℕ → Stamp → Run → Result ExecutionError Run
apply_verdict approve step_id s r = do
  r₁ ← move_linked step_id RunStepStatus.waiting_for_approval RunStepStatus.pending s.now r
  transition_run AgentRunStatus.queued (some approval_granted) s.now r₁
apply_verdict reject step_id s r = do
  r₁ ← move_linked step_id RunStepStatus.waiting_for_approval RunStepStatus.cancelled s.now r
  r₂ ← transition_run AgentRunStatus.cancelled (some approval_rejected) s.now r₁
  ok (append_control s.second_id s.now (runtime RuntimeEventType.run_cancelled) none r₂)

-- An approval that is not linked to this run is ignored.
unfoldable pub on_approval_decided : ℕ → Verdict → Stamp → Run → Result ExecutionError Run
on_approval_decided approval_id verdict s r = elim (find_approval approval_id r.approvals) [
  | none ↦ ok r
  | some a ↦
      let r₀ = append_control s.first_id s.now (verdict_event verdict) a.step_id r in
      if run_eq r.status AgentRunStatus.waiting_for_approval
      then apply_verdict verdict a.step_id s r₀
      else ok r₀
]

unfoldable pub pause_running : ℕ → Stamp → Run → Result ExecutionError Run
pause_running step_id s r = do
  r₁ ← transition_step step_id RunStepStatus.waiting_for_approval s.now r
  let r₂ = append_control s.first_id s.now (control_plane approval_requested) (some step_id) r₁
  r₃ ← transition_run AgentRunStatus.waiting_for_approval (some "APPROVAL_REQUIRED") s.now r₂
  ok (append_control s.second_id s.now (runtime RuntimeEventType.run_paused) none r₃)

unfoldable pub pause_for_approval : ℕ → Stamp → Run → Result ExecutionError Run
pause_for_approval step_id s r =
    if run_eq r.status AgentRunStatus.running
    then pause_running step_id s r
    else err run_not_running

abbrev pub is_open : RunStepStatus → Bool
is_open s =
    step_eq s RunStepStatus.pending
    || (step_eq s RunStepStatus.running || step_eq s RunStepStatus.waiting_for_approval)

-- The loop over the steps that were open when it began.
unfoldable pub cancel_steps : List Step → ℕ → Run → Result ExecutionError Run
cancel_steps [] now r = ok r
cancel_steps (t ∷ rest) now r =
    (if is_open t.status then transition_step t.id RunStepStatus.cancelled now r else ok r)
    >>= λ r'. cancel_steps rest now r'

unfoldable pub cancel_live : Option String → Stamp → Run → Result ExecutionError Run
cancel_live reason s r = do
  r₁ ← cancel_steps r.steps s.now r
  r₂ ← transition_run AgentRunStatus.cancelled reason s.now r₁
  ok (append_control s.second_id s.now (runtime RuntimeEventType.run_cancelled) none r₂)

unfoldable pub cancel_run : Option String → Stamp → Run → Result ExecutionError Run
cancel_run reason s r =
    if can_transition_run r.status AgentRunStatus.cancelled
    then cancel_live reason s r
    else err run_terminal

unfoldable pub on_approval_expired : ℕ → Stamp → Run → Result ExecutionError Run
on_approval_expired approval_id s r = elim (find_approval approval_id r.approvals) [
  | none ↦ ok r
  | some a ↦
      let r₀ = append_control s.first_id s.now (control_plane approval_expired) a.step_id r in
      if run_eq r.status AgentRunStatus.waiting_for_approval
      then cancel_run (some "APPROVAL_EXPIRED") s r₀
      else ok r₀
]

-- What the control plane does to a run: the methods that approvals, the gateway and a user call.
pub data Request : Type 0 where
  decided : ℕ → Verdict → Request
  expires : ℕ → Request
  pauses : ℕ → Request
  cancels : Option String → Request

unfoldable pub handle : Request → Stamp → Run → Result ExecutionError Run
handle (decided approval_id v) s r = on_approval_decided approval_id v s r
handle (expires approval_id) s r = on_approval_expired approval_id s r
handle (pauses step_id) s r = pause_for_approval step_id s r
handle (cancels reason) s r = cancel_run reason s r
