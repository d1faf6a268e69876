-- ===== src/Lifecycle/Transitions.antt =====
-- packages/contracts/src/run-lifecycle.ts: the transition tables and the events that move along them.
use employee_agent_platform.Prelude.{String, ◌≡◌, ◌↔◌, ◌⊎◌, true, false, Option, none, any, arith}
use employee_agent_platform.Lifecycle.{
  AgentRunStatus, RunStepStatus, RuntimeEventType, is_terminal_run, can_transition_run,
  can_transition_step, terminal_step_statuses, step_eq, accepted, decide_runtime_event, reason_is,
  approval_granted,
}

stuck_of_terminal :
    (s t : AgentRunStatus) → is_terminal_run s ≡ true → can_transition_run s t ≡ false
unfolding is_terminal_run can_transition_run
stuck_of_terminal AgentRunStatus.queued t h = cc h
stuck_of_terminal s t h = ground arith

terminal_of_stuck :
    (s : AgentRunStatus)
    → can_transition_run s AgentRunStatus.cancelled ≡ false
    → is_terminal_run s ≡ true
unfolding is_terminal_run can_transition_run
terminal_of_stuck AgentRunStatus.queued h = ground arith
terminal_of_stuck s h = ground arith

-- A run's status is terminal exactly when no transition leaves it.
pub is_terminal_run_iff :
    (s : AgentRunStatus)
    → (is_terminal_run s ≡ true) ↔ ((t : AgentRunStatus) → can_transition_run s t ≡ false)
is_terminal_run_iff s =
    (λ h t. stuck_of_terminal s t h, λ h. terminal_of_stuck s (h AgentRunStatus.cancelled))

stuck_of_terminal_step :
    (s t : RunStepStatus)
    → any (step_eq s) terminal_step_statuses ≡ true
    → can_transition_step s t ≡ false
unfolding terminal_step_statuses can_transition_step
stuck_of_terminal_step RunStepStatus.pending t h = ground arith
stuck_of_terminal_step s t h = ground arith

terminal_of_stuck_step :
    (s : RunStepStatus)
    → can_transition_step s RunStepStatus.cancelled ≡ false
    → any (step_eq s) terminal_step_statuses ≡ true
unfolding terminal_step_statuses can_transition_step
terminal_of_stuck_step RunStepStatus.pending h = ground arith
terminal_of_stuck_step s h = ground arith

-- A step's status is in the list of terminal statuses exactly when no transition leaves it.
pub terminal_step_iff :
    (s : RunStepStatus)
    → (any (step_eq s) terminal_step_statuses ≡ true)
      ↔ ((t : RunStepStatus) → can_transition_step s t ≡ false)
terminal_step_iff s =
    (λ h t. stuck_of_terminal_step s t h, λ h. terminal_of_stuck_step s (h RunStepStatus.cancelled))

-- An accepted runtime event moves the run along the transition table, or leaves a running run
-- running; and no event of a run in a terminal status is accepted.
pub decide_runtime_event_legal :
    (s t : AgentRunStatus) (reason : Option String) (type : RuntimeEventType)
    → decide_runtime_event s reason type ≡ accepted t
    → (is_terminal_run s ≡ false)
      × ((can_transition_run s t ≡ true)
          ⊎ ((s ≡ AgentRunStatus.running) × (t ≡ AgentRunStatus.running)))
unfolding decide_runtime_event
decide_runtime_event_legal AgentRunStatus.queued t reason type h = ground arith
decide_runtime_event_legal s t reason type h = ground arith

-- A queued run is taken up in one way only: `run.started` if it has no status reason, `run.resumed`
-- if its reason is that an approval was granted.
pub decide_runtime_event_pickup :
    (reason : Option String) (type : RuntimeEventType)
    → (decide_runtime_event AgentRunStatus.queued reason type ≡ accepted AgentRunStatus.running) ↔ (
        ((type ≡ RuntimeEventType.run_started) × (reason ≡ none))
        ⊎ ((type ≡ RuntimeEventType.run_resumed) × (reason_is approval_granted reason ≡ true)))
unfolding decide_runtime_event
decide_runtime_event_pickup reason type = ground arith
