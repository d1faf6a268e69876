-- ===== src/Execution/Create/History.antt =====
-- apps/control-plane-api/src/execution/execution-service.ts: what holds of a run from its creation on.
use employee_agent_platform.Prelude.{
  ℕ, String, ◌≡◌, refl, true, false, ◌||◌, not, Option, none, some, List, [], ◌∷◌, any, all, ◌==◌,
  arith, subst, ap, ◌∙◌, ◌+◌,
}
use employee_agent_platform.Prelude.Result.{
  Result, ok, err, Post, Post-if, Post-option, Post-bind, Post-ok, Post-value, Post-error,
}
use employee_agent_platform.Lifecycle.{
  AgentRunStatus, RuntimeEventType, decide_runtime_event, refused, RefusalCode, run_eq,
  is_terminal_run, can_transition_run,
}
use employee_agent_platform.Execution.{Run, Stamp, ExecutionError, append_control, is_terminal}
use employee_agent_platform.Execution.Decisions.{Request, handle}
use employee_agent_platform.Execution.Ingest.{
  Elsewhere, Envelope, Ingested, recorded, duplicate, record_new, on_decision, correlates,
  recorded_hash, hash_is, record_runtime_event,
}
use employee_agent_platform.Execution.Invariant.{IsValid, append_control-IsValidAt}
use employee_agent_platform.Execution.Keeps.{handle-keeps, handle-IsValid}
use employee_agent_platform.Execution.Keeps.Ingestion.{record_runtime_event-IsValid}
use employee_agent_platform.Execution.Create.{
  Subject, Creation, Thread, is_busy, insert_run, create_in, create_run, Input, asked, reviewed,
  sent, respond, history, committed, ingested, owns, same_subject,
}

insert_run-IsValid : (u : Subject) (thread_id : ℕ) (s : Stamp) → IsValid (insert_run u thread_id s)
unfolding insert_run append_control
insert_run-IsValid u thread_id s = append_control-IsValidAt 0 0 _ s.now _ none _ (record {
  numbered = tt;
  runtime_numbered = tt;
  counted = refl;
  reached = refl;
  completed = refl;
  stopped_once = refl;
  started = refl;
})

respond-IsValid : (i : Input) (r : Run) → IsValid r → IsValid (respond i r)
unfolding respond
respond-IsValid (asked q s) r h = commits (handle q s r) refl
  where
    commits : (m : Result ExecutionError Run) → handle q s r ≡ m → IsValid (committed r m)
    commits (ok r') e = (handle-IsValid q s r r' h e).0
    commits (err x) e = h
respond-IsValid (sent w v now) r h = ingests (record_runtime_event w v now r) refl
  where
    ingests :
        (m : Result ExecutionError Ingested)
        → record_runtime_event w v now r ≡ m
        → IsValid (ingested r m)
    ingests (ok (recorded r')) e = (record_runtime_event-IsValid w v now r r' h e).0
    ingests (ok duplicate) e = h
    ingests (err x) e = h
respond-IsValid (reviewed l) r h = record {
  numbered = h.numbered;
  runtime_numbered = h.runtime_numbered;
  counted = h.counted;
  reached = h.reached;
  completed = h.completed;
  stopped_once = h.stopped_once;
  started = h.started;
}

history-IsValid : (l : List Input) (r : Run) → IsValid r → IsValid (history l r)
unfolding history
history-IsValid [] r h = h
history-IsValid (i ∷ l) r h = history-IsValid l (respond i r) (respond-IsValid i r h)

none_busy :
    (id : ℕ) (runs : List Run)
    → any (is_busy id) runs ≡ false
    → all (λ q. not (is_busy id q)) runs ≡ true
none_busy id [] h = refl
none_busy id (q ∷ runs) h = ground (arith, none_busy id runs)

none_there :
    (id : ℕ) (runs : List Run)
    → all (λ q. not (q.thread_id == id)) runs ≡ true
    → all (λ q. not (is_busy id q)) runs ≡ true
none_there id [] h = refl
none_there id (q ∷ runs) h = ground (arith, none_there id runs)

module _ (c : Creation) (threads : List Thread) (runs : List Run) (s : Stamp) where
  abbrev Alone : Run → Type 0
  Alone r =
      IsValid r
      × (r.status ≡ AgentRunStatus.queued)
      × (all (λ q. not (is_busy r.thread_id q)) runs ≡ true)

  inserted-Alone :
      (id : ℕ) → all (λ q. not (is_busy id q)) runs ≡ true → Alone (insert_run c.subject id s)
  unfolding insert_run append_control
  inserted-Alone id h = (insert_run-IsValid c.subject id s, refl, h)

  create_in-Alone :
      (thread_id : Option ℕ)
      → all (λ q. not (q.thread_id == c.new_thread_id)) runs ≡ true
      → Post Alone (create_in thread_id c threads runs s)
  unfolding create_in
  create_in-Alone none fresh =
      Post-value _ (inserted-Alone c.new_thread_id (none_there c.new_thread_id runs fresh))
  create_in-Alone (some id) fresh =
      Post-if (not (any (owns c.subject id) threads)) _ _ (λ _. Post-error _)
        (λ _.
          Post-if (any (is_busy id) runs) _ _ (λ _. Post-error _)
            (λ e. Post-value _ (inserted-Alone id (none_busy id runs e))))

-- A run that is created is queued and valid, and no other run of its thread is active, if the
-- identifier of a new thread is not in use.
pub create_run-IsValid :
    (c : Creation) (threads : List Thread) (runs : List Run) (s : Stamp) (r : Run)
    → all (λ q. not (q.thread_id == c.new_thread_id)) runs ≡ true
    → create_run c threads runs s ≡ ok r
    → IsValid r
      × (r.status ≡ AgentRunStatus.queued)
      × (all (λ q. not (is_busy r.thread_id q)) runs ≡ true)
unfolding create_run
create_run-IsValid c threads runs s r fresh e =
    Post-ok {P = Alone c threads runs s} _ r
      (Post-if (not (same_subject c.signed_for c.subject)) _ _ (λ _. Post-error _)
        (λ _. create_in-Alone c threads runs s c.thread_id fresh))
      e

-- Whatever a run is asked and sent after its creation, and whatever becomes of its approvals, in any
-- order and with any failures in between, it stays valid: its events are numbered without gaps, those of the runtime are its consecutive
-- numbers, and a final status is announced exactly once.
pub history_from_creation-IsValid :
    (c : Creation) (threads : List Thread) (runs : List Run) (s : Stamp) (r : Run) (l : List Input)
    → all (λ q. not (q.thread_id == c.new_thread_id)) runs ≡ true
    → create_run c threads runs s ≡ ok r
    → IsValid (history l r)
history_from_creation-IsValid c threads runs s r l fresh e =
    history-IsValid l r (create_run-IsValid c threads runs s r fresh e).0

-- A request keeps a final status, because no move leaves it.
handle-Final :
    (q : Request) (s : Stamp) (status : AgentRunStatus) (r : Run)
    → is_terminal status ≡ true
    → r.status ≡ status
    → Post (λ r'. r'.status ≡ status) (handle q s r)
unfolding append_control can_transition_run
handle-Final q s status r t h =
    handle-keeps (λ r'. r'.status ≡ status) (λ _ _ e. e) (λ _ _ _ _ _ e. e)
      (λ to reason now r₁ e m.
        stays to status t (subst (λ x. (run_eq x to || can_transition_run x to) ≡ true) e m))
      q s r h
  where
    stays :
        (to status : AgentRunStatus)
        → is_terminal status ≡ true
        → (run_eq status to || can_transition_run status to) ≡ true
        → to ≡ status
    stays to status t m = ground (arith, m)

decide_runtime_event-Final :
    (status : AgentRunStatus) (reason : Option String) (type : RuntimeEventType)
    → is_terminal status ≡ true
    → decide_runtime_event status reason type ≡ refused RefusalCode.run_terminal
unfolding decide_runtime_event is_terminal_run can_transition_run
decide_runtime_event-Final status reason type h = ground (arith, h)

record_new-Final :
    (w : Elsewhere) (v : Envelope) (now : ℕ) (r : Run)
    → is_terminal r.status ≡ true
    → Post (λ _. ⊥) (record_new w v now r)
unfolding record_new on_decision
record_new-Final w v now r h =
    Post-if (not (correlates v r)) _ _ (λ _. Post-error _)
      (λ _.
        Post-if (not (v.sequence == r.runtime_sequence + 1)) _ _ (λ _. Post-error _)
          (λ _.
            rw (decide_runtime_event-Final r.status r.status_reason v.type h, on_decision)
              (Post-error _)))

record_runtime_event-Final :
    (w : Elsewhere) (v : Envelope) (now : ℕ) (r : Run)
    → is_terminal r.status ≡ true
    → Post (λ m. m ≡ duplicate) (record_runtime_event w v now r)
unfolding record_runtime_event
record_runtime_event-Final w v now r h =
    Post-option (recorded_hash w v.event_id r) _ _
      (λ _. Post-bind _ _ (record_new-Final w v now r h) (λ r₁ x. absurd x))
      (λ g _. Post-if (hash_is g v.payload_hash) _ _ (λ _. Post-value _ refl) (λ _. Post-error _))

respond-Final :
    (i : Input) (r : Run) → is_terminal r.status ≡ true → (respond i r).status ≡ r.status
unfolding respond
respond-Final (asked q s) r h = commits (handle q s r) (handle-Final q s r.status r h refl)
  where
    commits :
        (m : Result ExecutionError Run)
        → Post (λ r'. r'.status ≡ r.status) m
        → (committed r m).status ≡ r.status
    commits (ok r') e = e.holds
    commits (err x) e = refl
respond-Final (sent w v now) r h =
    ingests (record_runtime_event w v now r) (record_runtime_event-Final w v now r h)
  where
    ingests :
        (m : Result ExecutionError Ingested)
        → Post (λ m'. m' ≡ duplicate) m
        → (ingested r m).status ≡ r.status
    ingests (ok m) e = ap (λ m'. (ingested r (ok m')).status) e.holds
    ingests (err x) e = refl
respond-Final (reviewed l) r h = refl

-- A run in a final status keeps that status, whatever it is asked and sent afterwards, and whatever
-- becomes of its approvals.
pub history_final :
    (l : List Input) (r : Run) → is_terminal r.status ≡ true → (history l r).status ≡ r.status
unfolding history
history_final [] r h = refl
history_final (i ∷ l) r h =
    history_final l (respond i r) (ap is_terminal (respond-Final i r h) ∙ h) ∙ respond-Final i r h
