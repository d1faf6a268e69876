-- ===== src/Execution/Tests.antt =====
-- apps/control-plane-api/src/execution/execution-service.ts: a run that is created, taken up, paused and
-- ended.
use employee_agent_platform.Prelude.{
  ℕ, ◌+◌, ◌≡◌, ◌↔◌, refl, true, false, not, Option, none, some, [], ◌∷◌, all, if◌then◌else◌,
}
use employee_agent_platform.Prelude.Result.{ok}
use employee_agent_platform.Lifecycle.{
  AgentRunStatus, RuntimeEventType, can_transition_run, can_transition_step, decide_runtime_event,
  accepted, run_eq, is_terminal_run,
}
use employee_agent_platform.Execution.{
  Run, is_terminal_step, Stamp, Approval, ApprovalStatus, max_event, max_step, append_control,
  append_runtime, transition_run, transition_step, insert_step, find_step, update_step,
  find_approval,
}
use employee_agent_platform.Execution.Decisions.{
  approve, decided, cancels, handle, move_linked, apply_verdict, on_approval_decided, cancel_steps,
  cancel_live, cancel_run,
}
use employee_agent_platform.Execution.Ingest.{
  Elsewhere, Envelope, find_event, recorded_hash, start_step, step_event, effects, advance, accept,
  on_decision, record_new, recorded, record_runtime_event,
}
use employee_agent_platform.Execution.Invariant.{IsValid}
use employee_agent_platform.Execution.Keeps.Ingestion.{record_runtime_event-IsValid}
use employee_agent_platform.Execution.Progress.{Progressed, record_runtime_event_accepts}
use employee_agent_platform.Execution.Cancel.{cancel_run_closes}
use employee_agent_platform.Execution.Cancel.Succeeds.{is_ok, cancel_run_succeeds}
use employee_agent_platform.Execution.Decided.{
  verdict_status, verdict_reason, on_approval_decided_moves, on_approval_decided_resumes,
}
use employee_agent_platform.Execution.Create.{
  Creation, Thread, Subject, asked, reviewed, sent, is_busy, insert_run, create_in, create_run,
  respond, history,
}
use employee_agent_platform.Execution.Create.History.{
  create_run-IsValid, history_from_creation-IsValid, history_final,
}

abbrev subject : Subject
subject = record { organization_id = 1; employee_id = 2; agent_id = 3 }

abbrev creation : Creation
creation = record { subject = subject; signed_for = subject; thread_id = some 7; new_thread_id = 9 }

abbrev thread : Thread
thread = record { id = 7; employee_id = 2; agent_id = 3; is_active = true }

abbrev stamp : Stamp
stamp = record { now = 5; first_id = 100; second_id = 101 }

abbrev late_stamp : Stamp
late_stamp = record { now = 8; first_id = 102; second_id = 103 }

-- Nothing elsewhere holds an identifier.
abbrev nowhere : Elsewhere
nowhere = record {
  event_hash = λ _. none;
  step_taken = λ _. false;
  artifact_taken = λ _. false;
  artifact_refuses = λ _. false;
}

abbrev event : ℕ → RuntimeEventType → ℕ → Option ℕ → Envelope
event id type sequence step_id = record {
  event_id = id;
  type = type;
  step_id = step_id;
  sequence = sequence;
  thread_id = 7;
  employee_id = 2;
  agent_id = 3;
  occurred_at = 6;
  approval_id = 40;
  artifact_id = 50;
  reason = "done";
  payload_hash = 77;
}

abbrev started : Envelope
started = event 200 RuntimeEventType.run_started 1 none

abbrev step_started : Envelope
step_started = event 201 RuntimeEventType.step_started 2 (some 60)

abbrev queued_run : Run
queued_run = insert_run subject 7 stamp

abbrev running_run : Run
running_run = history (sent nowhere started 6 ∷ []) queued_run

abbrev busy_run : Run
busy_run = history (sent nowhere step_started 7 ∷ []) running_run

abbrev cancelled_run : Run
cancelled_run = history (asked (cancels none) late_stamp ∷ []) busy_run

abbrev approval : Approval
approval = record { id = 40; step_id = none; status = ApprovalStatus.approved }

abbrev waiting_run : Run
waiting_run = record queued_run {
  status = AgentRunStatus.waiting_for_approval;
  approvals = approval ∷ [];
}

abbrev released_run : Run
released_run = history (asked (decided 40 approve) late_stamp ∷ []) waiting_run

create_run-IsValid_example :
    IsValid queued_run
    × (queued_run.status ≡ AgentRunStatus.queued)
    × (all (λ q. not (is_busy queued_run.thread_id q)) (cancelled_run ∷ []) ≡ true)
unfolding create_run create_in insert_run append_control history respond handle cancel_run
    cancel_live cancel_steps transition_run transition_step can_transition_run can_transition_step
    find_step update_step record_runtime_event recorded_hash record_new on_decision
    decide_runtime_event is_terminal_run accept effects advance append_runtime start_step
    insert_step find_event step_event max_event max_step
create_run-IsValid_example =
    create_run-IsValid creation (thread ∷ []) (cancelled_run ∷ []) stamp queued_run refl refl

history_from_creation-IsValid_example : IsValid (
    history
      (sent nowhere started 6
        ∷ sent nowhere step_started 7
        ∷ reviewed (approval ∷ [])
        ∷ asked (cancels none) late_stamp
        ∷ [])
      queued_run)
unfolding create_run create_in insert_run append_control history respond handle cancel_run
    cancel_live cancel_steps transition_run transition_step can_transition_run can_transition_step
    find_step update_step record_runtime_event recorded_hash record_new on_decision
    decide_runtime_event is_terminal_run accept effects advance append_runtime start_step
    insert_step find_event step_event max_event max_step
history_from_creation-IsValid_example =
    history_from_creation-IsValid creation (thread ∷ []) [] stamp queued_run
      (sent nowhere started 6
        ∷ sent nowhere step_started 7
        ∷ reviewed (approval ∷ [])
        ∷ asked (cancels none) late_stamp
        ∷ [])
      refl refl

queued_run-IsValid : IsValid queued_run
unfolding create_run create_in insert_run append_control history respond handle cancel_run
    cancel_live cancel_steps transition_run transition_step can_transition_run can_transition_step
    find_step update_step record_runtime_event recorded_hash record_new on_decision
    decide_runtime_event is_terminal_run accept effects advance append_runtime start_step
    insert_step find_event step_event max_event max_step
queued_run-IsValid =
    history_from_creation-IsValid creation (thread ∷ []) [] stamp queued_run [] refl refl

busy_run-IsValid : IsValid busy_run
unfolding create_run create_in insert_run append_control history respond handle cancel_run
    cancel_live cancel_steps transition_run transition_step can_transition_run can_transition_step
    find_step update_step record_runtime_event recorded_hash record_new on_decision
    decide_runtime_event is_terminal_run accept effects advance append_runtime start_step
    insert_step find_event step_event max_event max_step
busy_run-IsValid =
    history_from_creation-IsValid creation (thread ∷ []) [] stamp queued_run
      (sent nowhere started 6 ∷ sent nowhere step_started 7 ∷ []) refl refl

record_runtime_event-IsValid_example :
    IsValid running_run
    × (started.sequence ≡ queued_run.runtime_sequence + 1)
    × (running_run.runtime_sequence ≡ started.sequence)
unfolding create_run create_in insert_run append_control history respond handle cancel_run
    cancel_live cancel_steps transition_run transition_step can_transition_run can_transition_step
    find_step update_step record_runtime_event recorded_hash record_new on_decision
    decide_runtime_event is_terminal_run accept effects advance append_runtime start_step
    insert_step find_event step_event max_event max_step
record_runtime_event-IsValid_example =
    record_runtime_event-IsValid nowhere started 6 queued_run running_run queued_run-IsValid refl

cancel_run_closes_example :
    (can_transition_run busy_run.status AgentRunStatus.cancelled ≡ true)
    × (all (λ t. is_terminal_step t.status) cancelled_run.steps ≡ true)
    × (cancelled_run.status ≡ AgentRunStatus.cancelled)
    × (cancelled_run.status_reason ≡ none)
unfolding create_run create_in insert_run append_control history respond handle cancel_run
    cancel_live cancel_steps transition_run transition_step can_transition_run can_transition_step
    find_step update_step record_runtime_event recorded_hash record_new on_decision
    decide_runtime_event is_terminal_run accept effects advance append_runtime start_step
    insert_step find_event step_event max_event max_step
cancel_run_closes_example = cancel_run_closes none late_stamp busy_run cancelled_run refl

on_approval_decided_moves_example :
    (released_run.status ≡ (
      if run_eq waiting_run.status AgentRunStatus.waiting_for_approval
      then verdict_status approve
      else waiting_run.status))
    × (released_run.status_reason ≡ (
        if run_eq waiting_run.status AgentRunStatus.waiting_for_approval
        then verdict_reason approve
        else waiting_run.status_reason))
unfolding insert_run append_control history respond handle on_approval_decided apply_verdict
    move_linked find_approval transition_run can_transition_run max_event
on_approval_decided_moves_example =
    on_approval_decided_moves 40 approve late_stamp waiting_run released_run approval refl refl

on_approval_decided_resumes_example :
    (decide_runtime_event released_run.status released_run.status_reason
        RuntimeEventType.run_resumed
      ≡ accepted AgentRunStatus.running)
    ↔ (RuntimeEventType.run_resumed ≡ RuntimeEventType.run_resumed)
unfolding insert_run append_control history respond handle on_approval_decided apply_verdict
    move_linked find_approval transition_run can_transition_run max_event
on_approval_decided_resumes_example =
    on_approval_decided_resumes 40 late_stamp waiting_run released_run approval
      RuntimeEventType.run_resumed refl refl refl

history_final_example :
    (history (sent nowhere started 9 ∷ []) cancelled_run).status ≡ cancelled_run.status
unfolding create_run create_in insert_run append_control history respond handle cancel_run
    cancel_live cancel_steps transition_run transition_step can_transition_run can_transition_step
    find_step update_step record_runtime_event recorded_hash record_new on_decision
    decide_runtime_event is_terminal_run accept effects advance append_runtime start_step
    insert_step find_event step_event max_event max_step
history_final_example = history_final (sent nowhere started 9 ∷ []) cancelled_run refl

cancel_run_succeeds_example : is_ok (cancel_run none late_stamp busy_run) ≡ true
unfolding insert_run append_control history respond handle cancel_run record_runtime_event
    recorded_hash record_new on_decision decide_runtime_event is_terminal_run can_transition_run
    accept effects advance transition_run append_runtime start_step insert_step find_step find_event
    step_event max_event max_step
cancel_run_succeeds_example = cancel_run_succeeds none late_stamp busy_run refl refl

record_runtime_event_accepts_example :
    (r' : Run) × (record_runtime_event nowhere started 6 queued_run ≡ ok (recorded r'))
    × Progressed AgentRunStatus.running started 6 queued_run r'
unfolding insert_run append_control recorded_hash find_event decide_runtime_event is_terminal_run
    can_transition_run max_event
record_runtime_event_accepts_example =
    record_runtime_event_accepts AgentRunStatus.running nowhere started 6 queued_run refl refl refl
      refl refl refl
