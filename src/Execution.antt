-- ===== src/Execution.antt =====
-- apps/control-plane-api/src/execution/execution-service.ts: one run, with its steps, its events and
-- its approvals. Every method runs in one transaction, so an error leaves the rows as they were.
-- Rows of other runs matter only where an identifier may already be taken: `Elsewhere`.
-- Left out: conversation messages, telemetry, and the payloads of events beside what is read of them.
pub mod Cancel
pub mod Create
pub mod Decided
pub mod Decisions
pub mod Frame
pub mod Ingest
pub mod Invariant
pub mod Keeps
pub mod Progress
pub mod Replay
pub mod Tests
use employee_agent_platform.Prelude.{
  ℕ, max, ◌++◌, String, ◌+◌, Bool, true, false, ◌&&◌, ◌||◌, not, Option, none, some, List, [], ◌∷◌,
  any, ◌==◌, is_some, if◌then◌else◌, str_eq,
}
use employee_agent_platform.Prelude.Result.{Result, ok, err, ◌>>=◌, ◌>>◌, throw_if}
use employee_agent_platform.Lifecycle.{
  AgentRunStatus, RunStepStatus, RuntimeEventType, run_eq, step_eq, terminal_run_statuses,
  terminal_step_statuses, can_transition_run, can_transition_step, RuntimeEventDecision, accepted,
  refused, RefusalCode, decide_runtime_event, approval_granted, approval_rejected,
}

pub data ControlPlaneEventType : Type 0 where
  run_created user_message approval_requested : ControlPlaneEventType
  approval_approved approval_was_rejected approval_expired : ControlPlaneEventType

pub data AgentEventType : Type 0 where
  control_plane : ControlPlaneEventType → AgentEventType
  runtime : RuntimeEventType → AgentEventType

pub data EventSource : Type 0 where
  from_control_plane from_runtime : EventSource

-- The hash of a control-plane event's own payload is left out: it is of another shape than the hash of
-- a runtime envelope, and taken to differ from it.
pub record Event : Type 0 where
  pub id : ℕ
  pub step_id : Option ℕ
  pub sequence : ℕ
  pub runtime_sequence : Option ℕ
  pub type : AgentEventType
  pub source : EventSource
  pub payload_hash : Option ℕ
  pub occurred_at : ℕ
  pub recorded_at : ℕ

pub record Step : Type 0 where
  pub id : ℕ
  pub sequence : ℕ
  pub status : RunStepStatus
  pub started_at : Option ℕ
  pub completed_at : Option ℕ

pub data ApprovalStatus : Type 0 where
  pending approved rejected expired : ApprovalStatus

pub record Approval : Type 0 where
  pub id : ℕ
  pub step_id : Option ℕ
  pub status : ApprovalStatus

-- `stopped` lists the calls of `onRunStopped`, the newest first,
-- as does `events`; `steps` has the oldest first.
pub record Run : Type 0 where
  pub thread_id : ℕ
  pub employee_id : ℕ
  pub agent_id : ℕ
  pub status : AgentRunStatus
  pub status_reason : Option String
  pub runtime_sequence : ℕ
  pub started_at : Option ℕ
  pub completed_at : Option ℕ
  pub steps : List Step
  pub events : List Event
  pub approvals : List Approval
  pub artifacts : List ℕ
  pub stopped : List AgentRunStatus

pub data ExecutionError : Type 0 where
  illegal_run_transition illegal_step_transition step_not_found : ExecutionError
  run_not_running run_terminal step_already_exists artifact_already_exists : ExecutionError
  event_conflict correlation_mismatch event_out_of_order approval_mismatch : ExecutionError
  artifact_refused : ExecutionError
  decision_refused : RefusalCode → ExecutionError

-- The time of a call, and the random identifiers of the events that it may append.
pub record Stamp : Type 0 where
  pub now : ℕ
  pub first_id : ℕ
  pub second_id : ℕ

unfoldable pub find_step : ℕ → List Step → Option Step
find_step id [] = none
find_step id (t ∷ rest) = if t.id == id then some t else find_step id rest

-- The lists of final statuses in the updates of `status`.
abbrev pub is_terminal_step : RunStepStatus → Bool
is_terminal_step s = any (step_eq s) (
    RunStepStatus.completed ∷ RunStepStatus.failed ∷ RunStepStatus.skipped ∷ RunStepStatus.cancelled
    ∷ [])

abbrev pub is_terminal : AgentRunStatus → Bool
is_terminal s =
    any (run_eq s)
      (AgentRunStatus.completed ∷ AgentRunStatus.failed ∷ AgentRunStatus.cancelled ∷ [])

-- `COALESCE(MAX(sequence),0)+1`
unfoldable pub max_event : List Event → ℕ
max_event [] = 0
max_event (e ∷ rest) = max e.sequence (max_event rest)

unfoldable pub max_step : List Step → ℕ
max_step [] = 0
max_step (t ∷ rest) = max t.sequence (max_step rest)

-- What a runtime event is recorded with.
pub record Origin : Type 0 where
  pub id : ℕ
  pub runtime_sequence : ℕ
  pub occurred_at : ℕ
  pub payload_hash : ℕ

unfoldable pub append_control : ℕ → ℕ → AgentEventType → Option ℕ → Run → Run
append_control id now type step_id r = record r {
  events =
      record {
        id = id;
        step_id = step_id;
        sequence = max_event r.events + 1;
        runtime_sequence = none;
        type = type;
        source = from_control_plane;
        payload_hash = none;
        occurred_at = now;
        recorded_at = now;
      }
      ∷ r.events;
}

unfoldable pub append_runtime : Origin → ℕ → RuntimeEventType → Option ℕ → Run → Run
append_runtime o now type step_id r = record r {
  events =
      record {
        id = o.id;
        step_id = step_id;
        sequence = max_event r.events + 1;
        runtime_sequence = some o.runtime_sequence;
        type = runtime type;
        source = from_runtime;
        payload_hash = some o.payload_hash;
        occurred_at = o.occurred_at;
        recorded_at = now;
      }
      ∷ r.events;
}

unfoldable pub insert_step : ℕ → RunStepStatus → ℕ → Run → Run
insert_step id status now r = record r {
  steps =
      r.steps
      ++ record {
        id = id;
        sequence = max_step r.steps + 1;
        status = status;
        started_at = if step_eq status RunStepStatus.pending then none else some now;
        completed_at = if is_terminal_step status then some now else none;
      }
        ∷ [];
}

-- `COALESCE(started_at, CASE WHEN to='RUNNING' THEN now END)`
abbrev pub start_time : AgentRunStatus → ℕ → Option ℕ → Option ℕ
start_time to now (some t) = some t
start_time to now none = if run_eq to AgentRunStatus.running then some now else none

abbrev pub move_run : AgentRunStatus → Option String → ℕ → Run → Run
move_run to reason now r = record r {
  status = to;
  status_reason = reason;
  started_at = start_time to now r.started_at;
  completed_at = if is_terminal to then some now else r.completed_at;
  stopped = if not (run_eq r.status to) && is_terminal to then to ∷ r.stopped else r.stopped;
}

unfoldable pub transition_run : AgentRunStatus → Option String → ℕ → Run → Result ExecutionError Run
transition_run to reason now r =
    if not (run_eq r.status to) && not (can_transition_run r.status to)
    then err illegal_run_transition
    else ok (move_run to reason now r)

abbrev pub move_step : RunStepStatus → ℕ → Step → Step
move_step to now t = record t {
  status = to;
  completed_at = if is_terminal_step to then some now else t.completed_at;
}

unfoldable pub update_step : ℕ → RunStepStatus → ℕ → List Step → List Step
update_step id to now [] = []
update_step id to now (t ∷ rest) =
    (if t.id == id then move_step to now t else t) ∷ update_step id to now rest

unfoldable pub transition_step : ℕ → RunStepStatus → ℕ → Run → Result ExecutionError Run
transition_step id to now r = elim (find_step id r.steps) [
  | none ↦ err step_not_found
  | some t ↦
      if can_transition_step t.status to
      then ok (record r { steps = update_step id to now r.steps })
      else err illegal_step_transition
]

unfoldable pub find_approval : ℕ → List Approval → Option Approval
find_approval id [] = none
find_approval id (a ∷ rest) = if a.id == id then some a else find_approval id rest
