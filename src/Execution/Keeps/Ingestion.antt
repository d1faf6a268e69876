-- ===== src/Execution/Keeps/Ingestion.antt =====
-- apps/control-plane-api/src/execution/execution-service.ts: what the runtime sends keeps the invariant
-- of a run, and arrives in the runtime's own order.
use employee_agent_platform.Prelude.{ℕ, ◌+◌, ◌≡◌, not, ◌==◌, arith, subst, sym}
use employee_agent_platform.Prelude.Result.{
  ok, Post, Post-if, Post-option, Post-bind, Post-map, Post-ok, Post-value, Post-error,
}
use employee_agent_platform.Lifecycle.{
  AgentRunStatus, run_eq, RuntimeEventDecision, accepted, refused,
}
use employee_agent_platform.Execution.{Run, transition_run}
use employee_agent_platform.Execution.Ingest.{
  Elsewhere, Envelope, advance, accept, on_decision, record_new, record_runtime_event, Ingested,
  recorded, duplicate, hash_is, recorded_hash, correlates, reason_of,
}
use employee_agent_platform.Execution.Invariant.{
  IsValidAt, IsValid, IsValid-at, move_run-IsValidAt, steps-IsValidAt, artifacts-IsValidAt,
  append_runtime-IsValidAt,
}
use employee_agent_platform.Execution.Frame.{transition_run-Moves, effects-keeps}

module _ (k n : ℕ) where
  advance-IsValidAt :
      (to : AgentRunStatus) (v : Envelope) (now : ℕ) (r : Run)
      → IsValidAt k n r
      → Post (IsValidAt k n) (advance to v now r)
  unfolding advance
  advance-IsValidAt to v now r h =
      Post-if (run_eq to r.status) _ (transition_run to (reason_of v) now r) (λ _. Post-value r h)
        (λ _.
          Post-map _
            (λ r' m. subst (IsValidAt k n) (sym m.1) (move_run-IsValidAt k n to _ now r h m.0))
            (transition_run-Moves to (reason_of v) now r))

-- The event is counted before it is recorded.
count-IsValidAt :
    (n m : ℕ) (r : Run)
    → IsValidAt 0 n r
    → m ≡ n + 1
    → IsValidAt 1 (n + 1) (record r { runtime_sequence = m })
count-IsValidAt n m r h e = record {
  numbered = h.numbered;
  runtime_numbered = h.runtime_numbered;
  counted = omega (arith, h.counted);
  reached = e;
  completed = h.completed;
  stopped_once = h.stopped_once;
  started = h.started;
}

accept-IsValidAt :
    (n : ℕ) (to : AgentRunStatus) (w : Elsewhere) (v : Envelope) (now : ℕ) (r : Run)
    → IsValidAt 0 n r
    → v.sequence ≡ n + 1
    → Post (IsValidAt 0 (n + 1)) (accept to w v now r)
unfolding accept
accept-IsValidAt n to w v now r h e =
    Post-bind _ _
      (effects-keeps (IsValidAt 0 n) (steps-IsValidAt 0 n) (artifacts-IsValidAt 0 n) v.type w v now
        r h)
      (λ r₁ h₁.
        Post-bind _ _
          (advance-IsValidAt 1 (n + 1) to v now _ (count-IsValidAt n v.sequence r₁ h₁ e))
          (λ r₂ h₂. Post-value _ (append_runtime-IsValidAt (n + 1) _ now v.type v.step_id r₂ h₂ e)))

module _ (w : Elsewhere) (v : Envelope) (now : ℕ) (r : Run) (h : IsValid r) where
  abbrev Next : Run → Type 0
  Next r' = (v.sequence ≡ r.runtime_sequence + 1) × IsValidAt 0 v.sequence r'

  on_decision-IsValidAt :
      (d : RuntimeEventDecision)
      → v.sequence ≡ r.runtime_sequence + 1
      → Post Next (on_decision d w v now r)
  unfolding on_decision
  on_decision-IsValidAt (refused code) e = Post-error _
  on_decision-IsValidAt (accepted to) e =
      Post-map (accept to w v now r) (λ r' h'. (e, subst (λ m. IsValidAt 0 m r') (sym e) h'))
        (accept-IsValidAt r.runtime_sequence to w v now r h e)

  record_new-IsValidAt : Post Next (record_new w v now r)
  unfolding record_new
  record_new-IsValidAt =
      Post-if (not (correlates v r)) _ _ (λ _. Post-error _)
        (λ _.
          Post-if (not (v.sequence == r.runtime_sequence + 1)) _ _ (λ _. Post-error _)
            (λ e. on_decision-IsValidAt _ (ground (arith, e))))

abbrev Follows : Envelope → Run → Ingested → Type 0
Follows v r (recorded r') =
    IsValid r' × (v.sequence ≡ r.runtime_sequence + 1) × (r'.runtime_sequence ≡ v.sequence)
Follows v r duplicate = Unit

-- An event of the runtime that is recorded leaves a valid run valid, carries the number after the
-- last one that the run had reached, and becomes the number that the run has reached.
pub record_runtime_event-IsValid :
    (w : Elsewhere) (v : Envelope) (now : ℕ) (r r' : Run)
    → IsValid r
    → record_runtime_event w v now r ≡ ok (recorded r')
    → IsValid r' × (v.sequence ≡ r.runtime_sequence + 1) × (r'.runtime_sequence ≡ v.sequence)
unfolding record_runtime_event
record_runtime_event-IsValid w v now r r' h e = Post-ok {P = Follows v r} _ (recorded r') follows e
  where
    follows : Post (Follows v r) (record_runtime_event w v now r)
    follows =
        Post-option (recorded_hash w v.event_id r) _ _
          (λ _.
            Post-bind _ _ (record_new-IsValidAt w v now r h)
              (λ r₁ h₁. Post-value _ (IsValid-at v.sequence r₁ h₁.1, h₁.0, h₁.1.reached)))
          (λ g _. Post-if (hash_is g v.payload_hash) _ _ (λ _. Post-value _ tt) (λ _. Post-error _))
