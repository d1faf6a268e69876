-- ===== src/Execution/Decided.antt =====
-- apps/control-plane-api/src/execution/execution-service.ts: where a decision on an approval leaves the
-- run, and what the runtime may then do.
use employee_agent_platform.Prelude.{
  ℕ, String, ◌≡◌, ◌↔◌, refl, Bool, true, false, Option, some, if◌then◌else◌, arith, subst, sym,
}
use employee_agent_platform.Prelude.Result.{
  ok, Post, Post-bind, Post-then, Post-map, Post-ok, Post-value,
}
use employee_agent_platform.Lifecycle.{
  AgentRunStatus, RunStepStatus, RuntimeEventType, run_eq, decide_runtime_event, accepted,
  approval_granted, approval_rejected,
}
use employee_agent_platform.Execution.{
  Run, Stamp, Approval, find_approval, append_control, transition_run,
}
use employee_agent_platform.Execution.Decisions.{
  Verdict, approve, reject, verdict_event, move_linked, apply_verdict, on_approval_decided,
}
use employee_agent_platform.Execution.Frame.{transition_run-Moves}

abbrev pub verdict_status : Verdict → AgentRunStatus
verdict_status approve = AgentRunStatus.queued
verdict_status reject = AgentRunStatus.cancelled

abbrev pub verdict_reason : Verdict → Option String
verdict_reason approve = some approval_granted
verdict_reason reject = some approval_rejected

abbrev At : AgentRunStatus → Option String → Run → Type 0
At status reason r = (r.status ≡ status) × (r.status_reason ≡ reason)

transition_run-At :
    (to : AgentRunStatus) (reason : Option String) (now : ℕ) (r : Run)
    → Post (At to reason) (transition_run to reason now r)
transition_run-At to reason now r =
    Post-map _ (λ r' m. subst (At to reason) (sym m.1) (refl, refl))
      (transition_run-Moves to reason now r)

apply_verdict-At :
    (v : Verdict) (step_id : Option ℕ) (s : Stamp) (r : Run)
    → Post (At (verdict_status v) (verdict_reason v)) (apply_verdict v step_id s r)
unfolding apply_verdict append_control
apply_verdict-At approve step_id s r =
    Post-then (move_linked step_id RunStepStatus.waiting_for_approval RunStepStatus.pending s.now r)
      _ (λ r₁. transition_run-At AgentRunStatus.queued (some approval_granted) s.now r₁)
apply_verdict-At reject step_id s r =
    Post-then
      (move_linked step_id RunStepStatus.waiting_for_approval RunStepStatus.cancelled s.now r) _
      (λ r₁.
        Post-bind _ _ (transition_run-At AgentRunStatus.cancelled (some approval_rejected) s.now r₁)
          (λ r₂ h₂. Post-value _ h₂))

-- A decision on an approval that is linked to the run takes a waiting run back to the queue for
-- `APPROVAL_GRANTED`, or cancels it for `APPROVAL_REJECTED`. A run that does not wait keeps its status
-- and its reason.
pub on_approval_decided_moves :
    (approval_id : ℕ) (v : Verdict) (s : Stamp) (r r' : Run) (a : Approval)
    → find_approval approval_id r.approvals ≡ some a
    → on_approval_decided approval_id v s r ≡ ok r'
    → (r'.status ≡ (
        if run_eq r.status AgentRunStatus.waiting_for_approval then verdict_status v else r.status))
      × (r'.status_reason ≡ (
          if run_eq r.status AgentRunStatus.waiting_for_approval
          then verdict_reason v
          else r.status_reason))
unfolding on_approval_decided append_control
on_approval_decided_moves approval_id v s r r' a f e =
    Post-ok {P = At (status to) (reason to)} (on_approval_decided approval_id v s r) r'
      (rw (f, on_approval_decided) (moved to)) e
  where
    to : Bool
    to = run_eq r.status AgentRunStatus.waiting_for_approval

    status : Bool → AgentRunStatus
    status b = if b then verdict_status v else r.status

    reason : Bool → Option String
    reason b = if b then verdict_reason v else r.status_reason

    r₀ : Run
    r₀ = append_control s.first_id s.now (verdict_event v) a.step_id r

    moved :
        (b : Bool)
        → Post (At (status b) (reason b)) (if b then apply_verdict v a.step_id s r₀ else ok r₀)
    moved true = apply_verdict-At v a.step_id s r₀
    moved false = Post-value r₀ (refl, refl)

granted_pickup :
    (t : RuntimeEventType)
    → (decide_runtime_event AgentRunStatus.queued (some approval_granted) t
        ≡ accepted AgentRunStatus.running)
      ↔ (t ≡ RuntimeEventType.run_resumed)
unfolding decide_runtime_event
granted_pickup t = ground arith

-- When the approval that a run waits for is granted, the runtime takes the run up with `run.resumed`
-- and with no other event.
pub on_approval_decided_resumes :
    (approval_id : ℕ) (s : Stamp) (r r' : Run) (a : Approval) (t : RuntimeEventType)
    → find_approval approval_id r.approvals ≡ some a
    → r.status ≡ AgentRunStatus.waiting_for_approval
    → on_approval_decided approval_id approve s r ≡ ok r'
    → (decide_runtime_event r'.status r'.status_reason t ≡ accepted AgentRunStatus.running)
      ↔ (t ≡ RuntimeEventType.run_resumed)
on_approval_decided_resumes approval_id s r r' a t f w e =
    let h = on_approval_decided_moves approval_id approve s r r' a f e in
    rw (h.0, h.1, w) (granted_pickup t)
