-- ===== src/Lifecycle.antt =====
-- packages/contracts/src/run-lifecycle.ts, with the status and event types of
-- packages/contracts/src/execution.ts. `list.includes(x)` is `includes`.
pub mod Transitions
pub mod Reach
pub mod Statuses
mod Tests
use employee_agent_platform.Prelude.{
  ℕ, String, Bool, true, false, ◌&&◌, Option, none, some, List, [], ◌∷◌, any, ◌==◌, str_eq,
  if◌then◌else◌,
}

pub data AgentRunStatus : Type 0 where
  queued running waiting_for_approval completed failed cancelled : AgentRunStatus

pub data RunStepStatus : Type 0 where
  pending running waiting_for_approval completed failed skipped cancelled : RunStepStatus

-- The events that an agent runtime may emit.
pub data RuntimeEventType : Type 0 where
  run_started run_paused run_resumed run_completed run_failed run_cancelled : RuntimeEventType
  step_started step_completed step_failed : RuntimeEventType
  agent_message agent_reasoning_started model_requested model_responded : RuntimeEventType
  tool_requested tool_started tool_completed tool_failed artifact_created : RuntimeEventType

-- `===` on the statuses, through a number for each.
abbrev pub run_code : AgentRunStatus → ℕ
run_code AgentRunStatus.queued = 0
run_code AgentRunStatus.running = 1
run_code AgentRunStatus.waiting_for_approval = 2
run_code AgentRunStatus.completed = 3
run_code AgentRunStatus.failed = 4
run_code AgentRunStatus.cancelled = 5

abbrev pub run_eq : AgentRunStatus → AgentRunStatus → Bool
run_eq a b = run_code a == run_code b

abbrev step_code : RunStepStatus → ℕ
step_code RunStepStatus.pending = 0
step_code RunStepStatus.running = 1
step_code RunStepStatus.waiting_for_approval = 2
step_code RunStepStatus.completed = 3
step_code RunStepStatus.failed = 4
step_code RunStepStatus.skipped = 5
step_code RunStepStatus.cancelled = 6

abbrev pub step_eq : RunStepStatus → RunStepStatus → Bool
step_eq a b = step_code a == step_code b

unfoldable pub terminal_run_statuses : List AgentRunStatus
terminal_run_statuses =
    AgentRunStatus.completed ∷ AgentRunStatus.failed ∷ AgentRunStatus.cancelled ∷ []

unfoldable pub active_run_statuses : List AgentRunStatus
active_run_statuses =
    AgentRunStatus.queued ∷ AgentRunStatus.running ∷ AgentRunStatus.waiting_for_approval ∷ []

unfoldable pub run_transitions : AgentRunStatus → List AgentRunStatus
run_transitions AgentRunStatus.queued = AgentRunStatus.running ∷ AgentRunStatus.cancelled ∷ []
run_transitions AgentRunStatus.running =
    AgentRunStatus.waiting_for_approval ∷ AgentRunStatus.completed ∷ AgentRunStatus.failed
    ∷ AgentRunStatus.cancelled ∷ []
run_transitions AgentRunStatus.waiting_for_approval =
    AgentRunStatus.queued ∷ AgentRunStatus.failed ∷ AgentRunStatus.cancelled ∷ []
run_transitions AgentRunStatus.completed = []
run_transitions AgentRunStatus.failed = []
run_transitions AgentRunStatus.cancelled = []

unfoldable pub terminal_step_statuses : List RunStepStatus
terminal_step_statuses =
    RunStepStatus.completed ∷ RunStepStatus.failed ∷ RunStepStatus.skipped ∷ RunStepStatus.cancelled
    ∷ []

unfoldable pub step_transitions : RunStepStatus → List RunStepStatus
step_transitions RunStepStatus.pending =
    RunStepStatus.running ∷ RunStepStatus.waiting_for_approval ∷ RunStepStatus.skipped
    ∷ RunStepStatus.cancelled ∷ []
step_transitions RunStepStatus.running =
    RunStepStatus.waiting_for_approval ∷ RunStepStatus.completed ∷ RunStepStatus.failed
    ∷ RunStepStatus.cancelled ∷ []
step_transitions RunStepStatus.waiting_for_approval =
    RunStepStatus.pending ∷ RunStepStatus.failed ∷ RunStepStatus.cancelled ∷ []
step_transitions RunStepStatus.completed = []
step_transitions RunStepStatus.failed = []
step_transitions RunStepStatus.skipped = []
step_transitions RunStepStatus.cancelled = []

abbrev pub approval_granted : String
approval_granted = "APPROVAL_GRANTED"

abbrev pub approval_rejected : String
approval_rejected = "APPROVAL_REJECTED"

unfoldable pub is_terminal_run : AgentRunStatus → Bool
unfolding terminal_run_statuses
is_terminal_run status = any (run_eq status) terminal_run_statuses

unfoldable pub can_transition_run : AgentRunStatus → AgentRunStatus → Bool
unfolding run_transitions
can_transition_run from to = any (run_eq to) (run_transitions from)

unfoldable pub can_transition_step : RunStepStatus → RunStepStatus → Bool
unfolding step_transitions
can_transition_step from to = any (step_eq to) (step_transitions from)

pub data RefusalCode : Type 0 where
  run_terminal illegal_run_transition run_not_running : RefusalCode

pub data RuntimeEventDecision : Type 0 where
  accepted : AgentRunStatus → RuntimeEventDecision
  refused : RefusalCode → RuntimeEventDecision

-- `statusReason === null`, and `statusReason === text`.
abbrev pub no_reason : Option String → Bool
no_reason none = true
no_reason (some _) = false

abbrev pub reason_is : String → Option String → Bool
reason_is text none = false
reason_is text (some r) = str_eq r text

-- The local function `move`.
abbrev move : AgentRunStatus → AgentRunStatus → Bool → RuntimeEventDecision
move from to when =
    if when && can_transition_run from to then accepted to else refused illegal_run_transition

unfoldable pub decide_runtime_event :
    AgentRunStatus → Option String → RuntimeEventType → RuntimeEventDecision
unfolding is_terminal_run can_transition_run
decide_runtime_event status reason type =
    if is_terminal_run status then refused run_terminal else elim type [
      | run_started ↦
          move status AgentRunStatus.running
            (run_eq status AgentRunStatus.queued && no_reason reason)
      | run_resumed ↦
          move status AgentRunStatus.running
            (run_eq status AgentRunStatus.queued && reason_is approval_granted reason)
      | run_paused ↦
          move status AgentRunStatus.waiting_for_approval (run_eq status AgentRunStatus.running)
      | run_completed ↦ move status AgentRunStatus.completed (run_eq status AgentRunStatus.running)
      | run_failed ↦ move status AgentRunStatus.failed true
      | run_cancelled ↦ move status AgentRunStatus.cancelled true
      | _ ↦
          if run_eq status AgentRunStatus.running
          then accepted AgentRunStatus.running
          else refused run_not_running
    ]
