-- ===== src/Execution/Create.antt =====
-- apps/control-plane-api/src/execution/execution-service.ts: `createRun`, and a run's life after it.
-- Left out: a run that is created in a conversation, whose thread is found or made elsewhere.
pub mod History
use employee_agent_platform.Prelude.{
  ℕ, ◌≡◌, refl, Bool, true, false, ◌&&◌, ◌||◌, not, Option, none, some, List, [], ◌∷◌, any, all,
  ◌==◌, if◌then◌else◌, arith,
}
use employee_agent_platform.Prelude.Result.{
  Result, ok, err, Post, Post-if, Post-ok, Post-value, Post-error,
}
use employee_agent_platform.Lifecycle.{AgentRunStatus, run_eq, is_terminal_run, can_transition_run}
use employee_agent_platform.Execution.{
  Approval, Run, Stamp, ExecutionError, append_control, control_plane, run_created, move_run,
  AgentEventType, Step, is_terminal,
}
use employee_agent_platform.Execution.Decisions.{Request, handle}
use employee_agent_platform.Execution.Ingest.{
  Elsewhere, Envelope, Ingested, recorded, duplicate, record_runtime_event,
}
use employee_agent_platform.Execution.Invariant.{IsValid, IsValidAt, append_control-IsValidAt}
use employee_agent_platform.Execution.Keeps.{handle-IsValid}
use employee_agent_platform.Execution.Keeps.Ingestion.{record_runtime_event-IsValid}

pub record Thread : Type 0 where
  pub id : ℕ
  pub employee_id : ℕ
  pub agent_id : ℕ
  pub is_active : Bool

-- For whom a run is created, or for whom a manifest was signed.
pub record Subject : Type 0 where
  pub organization_id : ℕ
  pub employee_id : ℕ
  pub agent_id : ℕ

-- `new_thread_id` is the random identifier of the thread that is made if none is named.
pub record Creation : Type 0 where
  pub subject : Subject
  pub signed_for : Subject
  pub thread_id : Option ℕ
  pub new_thread_id : ℕ

pub data CreationError : Type 0 where
  manifest_invalid thread_not_found thread_has_active_run : CreationError

abbrev pub same_subject : Subject → Subject → Bool
same_subject a b =
    a.organization_id == b.organization_id
    && (a.employee_id == b.employee_id && a.agent_id == b.agent_id)

abbrev pub is_active_run : AgentRunStatus → Bool
is_active_run s =
    any (run_eq s)
      (AgentRunStatus.queued ∷ AgentRunStatus.running ∷ AgentRunStatus.waiting_for_approval ∷ [])

abbrev pub is_busy : ℕ → Run → Bool
is_busy thread_id r = r.thread_id == thread_id && is_active_run r.status

abbrev pub owns : Subject → ℕ → Thread → Bool
owns u thread_id t =
    t.id == thread_id
    && (t.employee_id == u.employee_id && (t.agent_id == u.agent_id && t.is_active))

-- The row that `insertRun` writes, and the event `run.created`.
unfoldable pub insert_run : Subject → ℕ → Stamp → Run
insert_run u thread_id s =
    append_control s.first_id s.now (control_plane run_created) none (record {
      thread_id = thread_id;
      employee_id = u.employee_id;
      agent_id = u.agent_id;
      status = AgentRunStatus.queued;
      status_reason = none;
      runtime_sequence = 0;
      started_at = none;
      completed_at = none;
      steps = [];
      events = [];
      approvals = [];
      artifacts = [];
      stopped = [];
    })

unfoldable pub create_in :
    Option ℕ → Creation → List Thread → List Run → Stamp → Result CreationError Run
create_in none c threads runs s = ok (insert_run c.subject c.new_thread_id s)
create_in (some id) c threads runs s =
    if not (any (owns c.subject id) threads)
    then err thread_not_found
    else if any (is_busy id) runs
    then err thread_has_active_run
    else ok (insert_run c.subject id s)

unfoldable pub create_run : Creation → List Thread → List Run → Stamp → Result CreationError Run
create_run c threads runs s =
    if not (same_subject c.signed_for c.subject)
    then err manifest_invalid
    else create_in c.thread_id c threads runs s

-- A call on a run that exists, or a change of its approvals' rows by the services that own them.
pub data Input : Type 0 where
  asked : Request → Stamp → Input
  sent : Elsewhere → Envelope → ℕ → Input
  reviewed : List Approval → Input

-- The run after a call: a call that throws is rolled back, and a duplicate changes nothing.
abbrev committed : Run → Result ExecutionError Run → Run
committed r (ok r') = r'
committed r (err e) = r

abbrev ingested : Run → Result ExecutionError Ingested → Run
ingested r (ok (recorded r')) = r'
ingested r (ok duplicate) = r
ingested r (err e) = r

unfoldable pub respond : Input → Run → Run
respond (asked q s) r = committed r (handle q s r)
respond (sent w v now) r = ingested r (record_runtime_event w v now r)
respond (reviewed l) r = record r { approvals = l }

unfoldable pub history : List Input → Run → Run
history [] r = r
history (i ∷ rest) r = history rest (respond i r)
