-- ===== src/Execution/Invariant.antt =====
-- apps/control-plane-api/src/execution/execution-service.ts: what holds of a run between two calls, and
-- that the small operations keep it.
use employee_agent_platform.Prelude.{
  ℕ, String, ◌+◌, ◌≡◌, refl, true, ◌||◌, not, Option, none, some, List, [], ◌∷◌, is_some,
  if◌then◌else◌, length, arith, subst, sym,
}
use employee_agent_platform.Lifecycle.{AgentRunStatus, RuntimeEventType, run_eq, can_transition_run}
use employee_agent_platform.Execution.{
  Run, Event, Step, AgentEventType, Origin, is_terminal, max_event, append_control, append_runtime,
  move_run,
}

-- The events are numbered 1, 2, … in the order in which they were recorded.
abbrev pub Numbered : List Event → Type 0
Numbered [] = Unit
Numbered (e ∷ l) = (e.sequence ≡ length l + 1) × Numbered l

-- The number of events that came from the runtime.
abbrev pub runtime_count : List Event → ℕ
runtime_count [] = 0
runtime_count (e ∷ l) = (if is_some e.runtime_sequence then 1 else 0) + runtime_count l

abbrev OwnNumber : Event → ℕ → Type 0
OwnNumber e n = elim e.runtime_sequence [ none ↦ Unit | some k ↦ k ≡ n + 1 ]

-- Those events carry the runtime's own numbers 1, 2, … in order.
abbrev pub RuntimeNumbered : List Event → Type 0
RuntimeNumbered [] = Unit
RuntimeNumbered (e ∷ l) = OwnNumber e (runtime_count l) × RuntimeNumbered l

-- A run that has reached the runtime's number `n`, where `ahead` events are counted and not yet
-- recorded.
pub record IsValidAt (ahead n : ℕ) (r : Run) : Type 0 where
  pub numbered : Numbered r.events
  pub runtime_numbered : RuntimeNumbered r.events
  pub counted : runtime_count r.events + ahead ≡ n
  pub reached : r.runtime_sequence ≡ n
  pub completed : is_some r.completed_at ≡ is_terminal r.status
  pub stopped_once : r.stopped ≡ (if is_terminal r.status then r.status ∷ [] else [])
  pub started : (not (run_eq r.status AgentRunStatus.running) || is_some r.started_at) ≡ true

abbrev pub IsValid : Run → Type 0
IsValid r = IsValidAt 0 r.runtime_sequence r

pub IsValid-at : (n : ℕ) (r : Run) → IsValidAt 0 n r → IsValid r
IsValid-at n r h = subst (λ m. IsValidAt 0 m r) (sym h.reached) h

max_event-Numbered : (l : List Event) → Numbered l → max_event l ≡ length l
unfolding max_event
max_event-Numbered [] h = refl
max_event-Numbered (e ∷ l) h = omega (arith, max_event-Numbered l h.1, h.0)

module _ (k n : ℕ) where
  pub append_control-IsValidAt :
      (id now : ℕ) (type : AgentEventType) (step_id : Option ℕ) (r : Run)
      → IsValidAt k n r
      → IsValidAt k n (append_control id now type step_id r)
  unfolding append_control
  append_control-IsValidAt id now type step_id r h = record {
    numbered = (omega (arith, max_event-Numbered r.events h.numbered), h.numbered);
    runtime_numbered = (tt, h.runtime_numbered);
    counted = omega (arith, h.counted);
    reached = h.reached;
    completed = h.completed;
    stopped_once = h.stopped_once;
    started = h.started;
  }

  pub move_run-IsValidAt :
      (to : AgentRunStatus) (reason : Option String) (now : ℕ) (r : Run)
      → IsValidAt k n r
      → (run_eq r.status to || can_transition_run r.status to) ≡ true
      → IsValidAt k n (move_run to reason now r)
  unfolding can_transition_run
  move_run-IsValidAt to reason now r h e = record {
    numbered = h.numbered;
    runtime_numbered = h.runtime_numbered;
    counted = h.counted;
    reached = h.reached;
    completed = ground (arith, h.completed);
    stopped_once = ground (arith, h.stopped_once);
    started = ground (arith, h.started);
  }

  pub steps-IsValidAt :
      (steps : List Step) (r : Run) → IsValidAt k n r → IsValidAt k n (record r { steps = steps })
  steps-IsValidAt steps r h = record {
    numbered = h.numbered;
    runtime_numbered = h.runtime_numbered;
    counted = h.counted;
    reached = h.reached;
    completed = h.completed;
    stopped_once = h.stopped_once;
    started = h.started;
  }

  pub artifacts-IsValidAt :
      (l : List ℕ) (r : Run) → IsValidAt k n r → IsValidAt k n (record r { artifacts = l })
  artifacts-IsValidAt l r h = record {
    numbered = h.numbered;
    runtime_numbered = h.runtime_numbered;
    counted = h.counted;
    reached = h.reached;
    completed = h.completed;
    stopped_once = h.stopped_once;
    started = h.started;
  }

-- Recording the event that was counted ahead.
pub append_runtime-IsValidAt :
    (n : ℕ) (o : Origin) (now : ℕ) (type : RuntimeEventType) (step_id : Option ℕ) (r : Run)
    → IsValidAt 1 n r
    → o.runtime_sequence ≡ n
    → IsValidAt 0 n (append_runtime o now type step_id r)
unfolding append_runtime
append_runtime-IsValidAt n o now type step_id r h e = record {
  numbered = (omega (arith, max_event-Numbered r.events h.numbered), h.numbered);
  runtime_numbered = (omega (arith, h.counted), h.runtime_numbered);
  counted = omega (arith, h.counted);
  reached = h.reached;
  completed = h.completed;
  stopped_once = h.stopped_once;
  started = h.started;
}
