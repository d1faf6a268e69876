-- ===== src/Execution/Progress.antt =====
-- apps/control-plane-api/src/execution/execution-service.ts: an event of the run itself that comes in order
-- is recorded.
use employee_agent_platform.Prelude.{
  ℕ, ◌+◌, ◌≡◌, refl, Bool, true, false, not, ◌||◌, none, some, ◌∷◌, Bool-cases, sym, ==_iff, ◌==◌,
  arith, ◌∙◌, ap, ◌⊎◌, inl, inr, if◌then◌else◌,
}
use employee_agent_platform.Prelude.Result.{Result, ok, err, ◌>>=◌}
use employee_agent_platform.Lifecycle.{
  AgentRunStatus, RuntimeEventType, accepted, decide_runtime_event, run_eq, can_transition_run,
}
use employee_agent_platform.Lifecycle.Statuses.{run_eq-same}
use employee_agent_platform.Lifecycle.Transitions.{decide_runtime_event_legal}
use employee_agent_platform.Execution.{
  Run, Event, ExecutionError, runtime, from_runtime, max_event, append_runtime, transition_run,
  move_run,
}
use employee_agent_platform.Execution.Ingest.{
  Elsewhere, Envelope, effects, advance, accept, store, on_decision, record_new, recorded,
  record_runtime_event, recorded_hash, correlates, step_event, reason_of, find_event,
}

-- The events that name no other row.
abbrev pub is_run_event : RuntimeEventType → Bool
is_run_event t = elim t [
  | RuntimeEventType.run_resumed ↦ false
  | RuntimeEventType.step_started ↦ false
  | RuntimeEventType.step_completed ↦ false
  | RuntimeEventType.step_failed ↦ false
  | RuntimeEventType.artifact_created ↦ false
  | _ ↦ true
]

effects-nothing :
    (t : RuntimeEventType) (w : Elsewhere) (v : Envelope) (now : ℕ) (r : Run)
    → is_run_event t ≡ true
    → v.step_id ≡ none
    → effects t w v now r ≡ ok r
unfolding effects step_event
effects-nothing t w v now r h e = ground (arith, h, e)

advance-ok :
    (to : AgentRunStatus) (v : Envelope) (now : ℕ) (r : Run)
    → (run_eq to r.status || can_transition_run r.status to) ≡ true
    → advance to v now r ≡ ok (if run_eq to r.status then r else move_run to (reason_of v) now r)
unfolding advance transition_run
advance-ok to v now r h = ground (arith, h)

-- The run with the sequence of the event, and with the new status if it differs.
abbrev moved : AgentRunStatus → Envelope → ℕ → Run → Run
moved to v now r =
    if run_eq to r.status
    then record r { runtime_sequence = v.sequence }
    else move_run to (reason_of v) now (record r { runtime_sequence = v.sequence })

legal_move :
    (s t : AgentRunStatus)
    → ((can_transition_run s t ≡ true)
        ⊎ ((s ≡ AgentRunStatus.running) × (t ≡ AgentRunStatus.running)))
    → (run_eq t s || can_transition_run s t) ≡ true
legal_move s t (inl h) = ap (λ b. run_eq t s || b) h ∙ or_true (run_eq t s)
  where
    or_true : (b : Bool) → (b || true) ≡ true
    or_true true = refl
    or_true false = refl
legal_move s t (inr h) = rw (h.0, h.1) refl

accept-ok :
    (to : AgentRunStatus) (w : Elsewhere) (v : Envelope) (now : ℕ) (r : Run)
    → is_run_event v.type ≡ true
    → v.step_id ≡ none
    → decide_runtime_event r.status r.status_reason v.type ≡ accepted to
    → accept to w v now r ≡ ok (store v now (moved to v now r))
unfolding accept
accept-ok to w v now r h e d =
    ap
      (λ m. m >>= λ r₁. advance to v now (record r₁ { runtime_sequence = v.sequence }) >>= λ r₂.
        ok (store v now r₂))
      (effects-nothing v.type w v now r h e)
    ∙ ap (λ m. m >>= λ r₂. ok (store v now r₂))
        (advance-ok to v now (record r { runtime_sequence = v.sequence })
          (legal_move r.status to
            (decide_runtime_event_legal r.status to r.status_reason v.type d).1))

record_new-ok :
    (to : AgentRunStatus) (w : Elsewhere) (v : Envelope) (now : ℕ) (r : Run)
    → correlates v r ≡ true
    → v.sequence ≡ r.runtime_sequence + 1
    → decide_runtime_event r.status r.status_reason v.type ≡ accepted to
    → record_new w v now r ≡ accept to w v now r
unfolding record_new on_decision
record_new-ok to w v now r c s d =
    ap (λ b. if not b then err ExecutionError.correlation_mismatch else in_order) c
    ∙ (ap (λ b. if not b then err ExecutionError.event_out_of_order else decided) next
        ∙ ap (λ x. on_decision x w v now r) d)
  where
    next : (v.sequence == r.runtime_sequence + 1) ≡ true
    next = ground (arith, s)

    decided : Result ExecutionError Run
    decided = on_decision (decide_runtime_event r.status r.status_reason v.type) w v now r

    in_order : Result ExecutionError Run
    in_order =
        if not (v.sequence == r.runtime_sequence + 1)
        then err ExecutionError.event_out_of_order
        else decided

-- What an accepted event of the run itself leaves: the new status, with its reason if it is new, the
-- number that was reached, and the event, which is the last and has the next place.
pub record Progressed (to : AgentRunStatus) (v : Envelope) (now : ℕ) (r r' : Run) : Type 0 where
  pub event : Event
  pub status : r'.status ≡ to
  pub reason : r'.status_reason ≡ (if run_eq to r.status then r.status_reason else reason_of v)
  pub reached : r'.runtime_sequence ≡ r.runtime_sequence + 1
  pub same_steps : r'.steps ≡ r.steps
  pub same_approvals : r'.approvals ≡ r.approvals
  pub last : r'.events ≡ event ∷ r.events
  pub found : find_event v.event_id r'.events ≡ some event
  pub number : event.runtime_sequence ≡ some v.sequence
  pub place : event.sequence ≡ max_event r.events + 1
  pub type : event.type ≡ runtime v.type
  pub source : event.source ≡ from_runtime
  pub hash : event.payload_hash ≡ some v.payload_hash
  pub occurred : event.occurred_at ≡ v.occurred_at
  pub recorded : event.recorded_at ≡ now

moved-Moves :
    (to : AgentRunStatus) (v : Envelope) (now : ℕ) (r : Run)
    → ((moved to v now r).status ≡ to)
      × ((moved to v now r).status_reason
          ≡ (if run_eq to r.status then r.status_reason else reason_of v))
      × ((moved to v now r).steps ≡ r.steps)
      × ((moved to v now r).approvals ≡ r.approvals)
      × ((moved to v now r).events ≡ r.events)
      × ((moved to v now r).runtime_sequence ≡ v.sequence)
moved-Moves to v now r = elim (Bool-cases (run_eq to r.status)) [
  | inl y ↦ rw y (sym (run_eq-same to r.status y), refl, refl, refl, refl, refl)
  | inr n ↦ rw n (refl, refl, refl, refl, refl, refl)
]

store-Progressed :
    (to : AgentRunStatus) (v : Envelope) (now : ℕ) (r : Run)
    → v.sequence ≡ r.runtime_sequence + 1
    → Progressed to v now r (store v now (moved to v now r))
unfolding append_runtime find_event
store-Progressed to v now r s =
    let m = moved-Moves to v now r in
    let row : Event = record {
      id = v.event_id;
      step_id = v.step_id;
      sequence = max_event (moved to v now r).events + 1;
      runtime_sequence = some v.sequence;
      type = runtime v.type;
      source = from_runtime;
      payload_hash = some v.payload_hash;
      occurred_at = v.occurred_at;
      recorded_at = now;
    } in
    record {
      event = row;
      status = m.0;
      reason = m.1;
      reached = m.5 ∙ s;
      same_steps = m.2;
      same_approvals = m.3;
      last = ap (λ l. row ∷ l) m.4;
      found = rw ((==_iff v.event_id v.event_id).1 refl) refl;
      number = refl;
      place = ap (λ l. max_event l + 1) m.4;
      type = refl;
      source = refl;
      hash = refl;
      occurred = refl;
      recorded = refl;
    }

-- An event of the run itself (not one that resumes it, or that concerns a step or an artifact) is
-- recorded if its identifier is new, it names the run's thread, employee and agent, it carries the next
-- number, and the lifecycle accepts it. The run then has the status that the lifecycle says, with the
-- event's reason if the status is new, and has reached the event's number. The event is found by its
-- identifier with its hash, its number, its type, its time and the next place; the earlier events, the
-- steps and the approvals are as they were.
pub record_runtime_event_accepts :
    (to : AgentRunStatus) (w : Elsewhere) (v : Envelope) (now : ℕ) (r : Run)
    → recorded_hash w v.event_id r ≡ none
    → correlates v r ≡ true
    → v.sequence ≡ r.runtime_sequence + 1
    → is_run_event v.type ≡ true
    → v.step_id ≡ none
    → decide_runtime_event r.status r.status_reason v.type ≡ accepted to
    → (r' : Run) × (record_runtime_event w v now r ≡ ok (recorded r')) × Progressed to v now r r'
unfolding record_runtime_event
record_runtime_event_accepts to w v now r new c s h e d = (
  store v now (moved to v now r),
  rw (new, record_runtime_event) (ap (λ m. m >>= λ r'. ok (recorded r')) recorded_new),
  store-Progressed to v now r s,
)
  where
    recorded_new : record_new w v now r ≡ ok (store v now (moved to v now r))
    recorded_new = record_new-ok to w v now r c s d ∙ accept-ok to w v now r h e d
