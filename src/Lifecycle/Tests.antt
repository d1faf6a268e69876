-- ===== src/Lifecycle/Tests.antt =====
-- packages/contracts/src/run-lifecycle.ts at concrete statuses and events.
use employee_agent_platform.Prelude.{
  String, ◌≡◌, refl, ◌⊎◌, true, false, Option, none, some, List, [], ◌∷◌,
}
use employee_agent_platform.Lifecycle.{
  AgentRunStatus, RuntimeEventType, is_terminal_run, can_transition_run, accepted,
  decide_runtime_event, approval_granted,
}
use employee_agent_platform.Lifecycle.Transitions.{decide_runtime_event_legal}
use employee_agent_platform.Lifecycle.Reach.{
  after_events, Held, after_events-Held, after_events_terminal,
}

-- A runtime that tries to resume, to start and to complete a run, and then gives up.
abbrev attempts : List (Option String × RuntimeEventType)
attempts =
    (some approval_granted, RuntimeEventType.run_resumed)
    ∷ (none, RuntimeEventType.run_started)
    ∷ (none, RuntimeEventType.run_completed)
    ∷ (none, RuntimeEventType.run_failed)
    ∷ []

attempts_fail : after_events AgentRunStatus.waiting_for_approval attempts ≡ AgentRunStatus.failed
unfolding after_events decide_runtime_event
attempts_fail = refl

started_accepted :
    decide_runtime_event AgentRunStatus.queued none RuntimeEventType.run_started
    ≡ accepted AgentRunStatus.running
unfolding decide_runtime_event
started_accepted = refl

decide_runtime_event_legal_example :
    (is_terminal_run AgentRunStatus.queued ≡ false)
    × ((can_transition_run AgentRunStatus.queued AgentRunStatus.running ≡ true)
        ⊎ ((AgentRunStatus.queued ≡ AgentRunStatus.running)
            × (AgentRunStatus.running ≡ AgentRunStatus.running)))
decide_runtime_event_legal_example =
    decide_runtime_event_legal AgentRunStatus.queued AgentRunStatus.running none
      RuntimeEventType.run_started started_accepted

after_events-Held_example : Held (after_events AgentRunStatus.waiting_for_approval attempts)
after_events-Held_example = after_events-Held attempts

after_events_terminal_example :
    after_events AgentRunStatus.cancelled attempts ≡ AgentRunStatus.cancelled
unfolding is_terminal_run
after_events_terminal_example = after_events_terminal AgentRunStatus.cancelled attempts refl
