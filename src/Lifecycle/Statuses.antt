-- ===== src/Lifecycle/Statuses.antt =====
-- packages/contracts/src/run-lifecycle.ts: the test for equal statuses of runs.
use employee_agent_platform.Prelude.{ℕ, ◌≡◌, refl, true, ◌==◌, ==_iff, if◌then◌else◌, sym, ap, ◌∙◌}
use employee_agent_platform.Lifecycle.{AgentRunStatus, run_code, run_eq}

-- The status that has a code.
status_of : ℕ → AgentRunStatus
status_of n =
    if n == 0
    then AgentRunStatus.queued
    else if n == 1
    then AgentRunStatus.running
    else if n == 2
    then AgentRunStatus.waiting_for_approval
    else if n == 3
    then AgentRunStatus.completed
    else if n == 4
    then AgentRunStatus.failed
    else AgentRunStatus.cancelled

status_of-run_code : (s : AgentRunStatus) → status_of (run_code s) ≡ s
unfolding status_of
status_of-run_code AgentRunStatus.queued = refl
status_of-run_code AgentRunStatus.running = refl
status_of-run_code AgentRunStatus.waiting_for_approval = refl
status_of-run_code AgentRunStatus.completed = refl
status_of-run_code AgentRunStatus.failed = refl
status_of-run_code AgentRunStatus.cancelled = refl

pub run_eq-same : (s t : AgentRunStatus) → run_eq s t ≡ true → s ≡ t
run_eq-same s t h =
    sym (status_of-run_code s)
    ∙ ap status_of ((==_iff (run_code s) (run_code t)).0 h)
    ∙ status_of-run_code t
