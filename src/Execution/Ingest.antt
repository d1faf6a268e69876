-- ===== src/Execution/Ingest.antt =====
-- apps/control-plane-api/src/execution/execution-service.ts: `ingestRuntimeEvent` and
-- `recordRuntimeEvent`, for an envelope that names this run and its organization.
use employee_agent_platform.Prelude.{
  ℕ, String, ◌+◌, Bool, true, false, ◌&&◌, ◌||◌, not, Option, none, some, List, [], ◌∷◌, any, ◌==◌,
  is_some, if◌then◌else◌,
}
use employee_agent_platform.Prelude.Result.{Result, ok, err, ◌>>=◌}
use employee_agent_platform.Lifecycle.{
  AgentRunStatus, RunStepStatus, RuntimeEventType, run_eq, RuntimeEventDecision, accepted, refused,
  decide_runtime_event,
}
use employee_agent_platform.Execution.{
  Run, Event, ApprovalStatus, ExecutionError, step_not_found, step_already_exists,
  artifact_already_exists, event_conflict, correlation_mismatch, event_out_of_order,
  approval_mismatch, artifact_refused, decision_refused, find_step, append_runtime, insert_step,
  transition_run, transition_step, find_approval,
}
use employee_agent_platform.Execution.Decisions.{move_linked}

-- What is read of a parsed envelope. `approval_id` is the payload's where the type is `run.resumed`,
-- `artifact_id` where it is `artifact.created`, and `reason` is the reason or the error's code where
-- it is `run.paused`, `run.failed` or `run.cancelled`.
pub record Envelope : Type 0 where
  pub event_id : ℕ
  pub type : RuntimeEventType
  pub step_id : Option ℕ
  pub sequence : ℕ
  pub thread_id : ℕ
  pub employee_id : ℕ
  pub agent_id : ℕ
  pub occurred_at : ℕ
  pub approval_id : ℕ
  pub artifact_id : ℕ
  pub reason : String
  pub payload_hash : ℕ

-- What other rows hold: the hash of another run's event, whether a step or an artifact identifier is
-- taken by another run, and whether the artifact service refuses an artifact (`registerArtifact`).
pub record Elsewhere : Type 0 where
  pub event_hash : ℕ → Option ℕ
  pub step_taken : ℕ → Bool
  pub artifact_taken : ℕ → Bool
  pub artifact_refuses : ℕ → Bool

unfoldable pub find_event : ℕ → List Event → Option Event
find_event id [] = none
find_event id (e ∷ rest) = if e.id == id then some e else find_event id rest

abbrev pub hash_is : Option ℕ → ℕ → Bool
hash_is none h = false
hash_is (some g) h = g == h

-- The hash of the event that has the identifier, here or in another run, if there is one.
unfoldable pub recorded_hash : Elsewhere → ℕ → Run → Option (Option ℕ)
recorded_hash w id r = elim (find_event id r.events) [
  | some e ↦ some e.payload_hash
  | none ↦ elim (w.event_hash id) [ none ↦ none | some h ↦ some (some h) ]
]

abbrev pub correlates : Envelope → Run → Bool
correlates v r =
    r.thread_id == v.thread_id && (r.employee_id == v.employee_id && r.agent_id == v.agent_id)

abbrev pub is_approved : ApprovalStatus → Bool
is_approved ApprovalStatus.approved = true
is_approved ApprovalStatus.pending = false
is_approved ApprovalStatus.rejected = false
is_approved ApprovalStatus.expired = false

-- `run.resumed` names the approval that released the run, and its step restarts.
unfoldable pub resume : Envelope → ℕ → Run → Result ExecutionError Run
resume v now r = elim (find_approval v.approval_id r.approvals) [
  | none ↦ err approval_mismatch
  | some a ↦
      if is_approved a.status
      then move_linked a.step_id RunStepStatus.pending RunStepStatus.running now r
      else err approval_mismatch
]

-- `step.started` carries the new step's identifier: the envelope's schema requires it.
unfoldable pub start_step : Elsewhere → Option ℕ → ℕ → Run → Result ExecutionError Run
start_step w none now r = err step_not_found
start_step w (some id) now r =
    if is_some (find_step id r.steps) || w.step_taken id
    then err step_already_exists
    else ok (insert_step id RunStepStatus.running now r)

-- Any other event that names a step names one of this run; two of them end it.
unfoldable pub step_event : Option ℕ → Option RunStepStatus → ℕ → Run → Result ExecutionError Run
step_event none to now r = ok r
step_event (some id) none now r =
    if is_some (find_step id r.steps) then ok r else err step_not_found
step_event (some id) (some to) now r = transition_step id to now r

unfoldable pub register : Elsewhere → ℕ → Run → Result ExecutionError Run
register w id r =
    if any (λ a. a == id) r.artifacts || w.artifact_taken id
    then err artifact_already_exists
    else if w.artifact_refuses id
    then err artifact_refused
    else ok (record r { artifacts = id ∷ r.artifacts })

-- What an event of each type does beside the run's own status.
unfoldable pub effects :
    RuntimeEventType → Elsewhere → Envelope → ℕ → Run → Result ExecutionError Run
effects RuntimeEventType.run_resumed w v now r = resume v now r >>= step_event v.step_id none now
effects RuntimeEventType.step_started w v now r = start_step w v.step_id now r
effects RuntimeEventType.step_completed w v now r =
    step_event v.step_id (some RunStepStatus.completed) now r
effects RuntimeEventType.step_failed w v now r =
    step_event v.step_id (some RunStepStatus.failed) now r
effects RuntimeEventType.artifact_created w v now r =
    step_event v.step_id none now r >>= register w v.artifact_id
effects _ w v now r = step_event v.step_id none now r

abbrev pub reason_of : Envelope → Option String
reason_of v = elim v.type [
  | RuntimeEventType.run_paused ↦ some v.reason
  | RuntimeEventType.run_failed ↦ some v.reason
  | RuntimeEventType.run_cancelled ↦ some v.reason
  | _ ↦ none
]

-- The status moves only if it changes.
unfoldable pub advance : AgentRunStatus → Envelope → ℕ → Run → Result ExecutionError Run
advance to v now r = if run_eq to r.status then ok r else transition_run to (reason_of v) now r

abbrev pub store : Envelope → ℕ → Run → Run
store v now r =
    append_runtime
      (record {
        id = v.event_id;
        runtime_sequence = v.sequence;
        occurred_at = v.occurred_at;
        payload_hash = v.payload_hash;
      })
      now v.type v.step_id r

-- An accepted event: its effects, the sequence, the status, and the event itself.
unfoldable pub accept : AgentRunStatus → Elsewhere → Envelope → ℕ → Run → Result ExecutionError Run
accept to w v now r = do
  r₁ ← effects v.type w v now r
  r₂ ← advance to v now (record r₁ { runtime_sequence = v.sequence })
  ok (store v now r₂)

unfoldable pub on_decision :
    RuntimeEventDecision → Elsewhere → Envelope → ℕ → Run → Result ExecutionError Run
on_decision (refused code) w v now r = err (decision_refused code)
on_decision (accepted to) w v now r = accept to w v now r

unfoldable pub record_new : Elsewhere → Envelope → ℕ → Run → Result ExecutionError Run
record_new w v now r =
    if not (correlates v r)
    then err correlation_mismatch
    else if not (v.sequence == r.runtime_sequence + 1)
    then err event_out_of_order
    else on_decision (decide_runtime_event r.status r.status_reason v.type) w v now r

pub data Ingested : Type 0 where
  recorded : Run → Ingested
  duplicate : Ingested

unfoldable pub record_runtime_event :
    Elsewhere → Envelope → ℕ → Run → Result ExecutionError Ingested
record_runtime_event w v now r = elim (recorded_hash w v.event_id r) [
  | some h ↦ if hash_is h v.payload_hash then ok duplicate else err event_conflict
  | none ↦ record_new w v now r >>= λ r'. ok (recorded r')
]
