-- ===== src/Lifecycle/Reach.antt =====
-- packages/contracts/src/run-lifecycle.ts: what a runtime can do to a run by a sequence of events.
use employee_agent_platform.Prelude.{
  String, ◌≡◌, refl, ◌⊎◌, inl, true, Option, List, [], ◌∷◌, arith,
}
use employee_agent_platform.Lifecycle.{
  AgentRunStatus, RuntimeEventType, is_terminal_run, RuntimeEventDecision, accepted, refused,
  decide_runtime_event,
}

-- The status after a decision: a refused event leaves the run as it was.
abbrev pub status_after : AgentRunStatus → RuntimeEventDecision → AgentRunStatus
status_after s (accepted t) = t
status_after s (refused code) = s

-- The run after a sequence of runtime events, each met with the status reason that it then has.
unfoldable pub after_events :
    AgentRunStatus → List (Option String × RuntimeEventType) → AgentRunStatus
after_events s [] = s
after_events s ((reason, type) ∷ es) =
    after_events (status_after s (decide_runtime_event s reason type)) es

-- The statuses that a paused run can have while no person decides.
abbrev pub Held : AgentRunStatus → Type 0
Held s =
    (s ≡ AgentRunStatus.waiting_for_approval)
    ⊎ (s ≡ AgentRunStatus.failed)
    ⊎ (s ≡ AgentRunStatus.cancelled)

Held-step :
    (s : AgentRunStatus) (reason : Option String) (type : RuntimeEventType)
    → Held s
    → Held (status_after s (decide_runtime_event s reason type))
unfolding decide_runtime_event is_terminal_run
Held-step s reason type h = ground arith

Held-after :
    (es : List (Option String × RuntimeEventType)) (s : AgentRunStatus)
    → Held s
    → Held (after_events s es)
unfolding after_events
Held-after [] s h = h
Held-after ((reason, type) ∷ es) s h = Held-after es _ (Held-step s reason type h)

-- No sequence of runtime events, whatever the status reasons, releases a run that waits for an
-- approval: it still waits, or it has failed or been cancelled.
pub after_events-Held :
    (es : List (Option String × RuntimeEventType))
    → Held (after_events AgentRunStatus.waiting_for_approval es)
after_events-Held es = Held-after es _ (inl refl)

terminal_step :
    (s : AgentRunStatus) (reason : Option String) (type : RuntimeEventType)
    → is_terminal_run s ≡ true
    → status_after s (decide_runtime_event s reason type) ≡ s
unfolding decide_runtime_event
terminal_step s reason type h = rw h

-- A run in a terminal status keeps that status under every sequence of runtime events.
pub after_events_terminal :
    (s : AgentRunStatus) (es : List (Option String × RuntimeEventType))
    → is_terminal_run s ≡ true
    → after_events s es ≡ s
unfolding after_events
after_events_terminal s [] h = refl
after_events_terminal s ((reason, type) ∷ es) h =
    rw (terminal_step s reason type h) (after_events_terminal s es h)
