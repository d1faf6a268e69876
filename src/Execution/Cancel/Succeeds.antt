-- ===== src/Execution/Cancel/Succeeds.antt =====
-- apps/control-plane-api/src/execution/execution-service.ts: cancelling a run that is not final does not
-- fail.
use employee_agent_platform.Prelude.{
  and_left, and_right, and_intro, ℕ, String, ◌≡◌, refl, Bool, true, false, ◌&&◌, ◌||◌, not, Option,
  none, some, List, [], ◌∷◌, all, sym, ◌∙◌, ap, ◌==◌, if◌then◌else◌, arith,
}
use employee_agent_platform.Prelude.Result.{Result, ok, err, ◌>>=◌, Post}
use employee_agent_platform.Lifecycle.{
  RuntimeEventType, AgentRunStatus, RunStepStatus, can_transition_run, can_transition_step,
}
use employee_agent_platform.Execution.{
  Run, Step, Stamp, runtime, ExecutionError, find_step, append_control, transition_run, move_run,
  transition_step, update_step,
}
use employee_agent_platform.Execution.Frame.{cancel_steps-keeps}
use employee_agent_platform.Execution.Decisions.{is_open, cancel_steps, cancel_live, cancel_run}

abbrev pub is_ok : {A : Type 0} → Result ExecutionError A → Bool
is_ok (ok a) = true
is_ok (err e) = false

-- The identifier of a step is its key.
abbrev pub keyed : List Step → Bool
keyed [] = true
keyed (u ∷ l) = all (λ t. not (t.id == u.id)) l && keyed l

abbrev holds_open : Option Step → Bool
holds_open none = false
holds_open (some t) = is_open t.status

-- Every open step of a list is found open.
abbrev found : List Step → List Step → Bool
found l steps = all (λ u. not (is_open u.status) || holds_open (find_step u.id steps)) l

find_step-other :
    (id other : ℕ) (now : ℕ) (steps : List Step)
    → (id == other) ≡ false
    → find_step id (update_step other RunStepStatus.cancelled now steps) ≡ find_step id steps
unfolding find_step update_step
find_step-other id other now [] h = refl
find_step-other id other now (t ∷ steps) h = ground (arith, h, find_step-other id other now steps)

found_update :
    (l : List Step) (id now : ℕ) (steps : List Step)
    → all (λ t. not (t.id == id)) l ≡ true
    → found l steps ≡ true
    → found l (update_step id RunStepStatus.cancelled now steps) ≡ true
found_update [] id now steps d h = refl
found_update (u ∷ l) id now steps d h =
    ground (arith, d, h, find_step-other u.id id now steps, found_update l id now steps)

find_step-skip :
    (id : ℕ) (t : Step) (steps : List Step)
    → (id == t.id) ≡ false
    → find_step id (t ∷ steps) ≡ find_step id steps
unfolding find_step
find_step-skip id t steps h = ground (arith, h)

find_step-first : (t : Step) (steps : List Step) → find_step t.id (t ∷ steps) ≡ some t
unfolding find_step
find_step-first t steps = ground arith

abbrev is_found : List Step → Step → Bool
is_found steps u = not (is_open u.status) || holds_open (find_step u.id steps)

is_found_more :
    (u t : Step) (steps : List Step)
    → not (u.id == t.id) ≡ true
    → is_found steps u ≡ true
    → is_found (t ∷ steps) u ≡ true
is_found_more u t steps d h =
    ap (λ o. not (is_open u.status) || holds_open o)
      (find_step-skip u.id t steps (ground (arith, d)))
    ∙ h

is_found-first : (t : Step) (steps : List Step) → is_found (t ∷ steps) t ≡ true
is_found-first t steps =
    ap (λ o. not (is_open t.status) || holds_open o) (find_step-first t steps)
    ∙ either (is_open t.status)
  where
    either : (b : Bool) → (not b || b) ≡ true
    either true = refl
    either false = refl

all_map :
    {p q d : Step → Bool} (l : List Step)
    → ((u : Step) → d u ≡ true → p u ≡ true → q u ≡ true)
    → all d l ≡ true
    → all p l ≡ true
    → all q l ≡ true
all_map [] f h k = refl
all_map {p = p} {q = q} {d = d} (u ∷ l) f h k =
    and_intro (f u (and_left (d u) _ h) (and_left (p u) _ k))
      (all_map l f (and_right (d u) _ h) (and_right (p u) _ k))

found_self : (l : List Step) → keyed l ≡ true → found l l ≡ true
found_self [] d = refl
found_self (u ∷ l) d = and_intro (is_found-first u l) (
    all_map l (λ t e h. is_found_more t u l e h) (and_left (all (λ t. not (t.id == u.id)) l) _ d)
      (found_self l (and_right (all (λ t. not (t.id == u.id)) l) _ d)))

cancel_open :
    (u : Step) (now : ℕ) (r : Run)
    → holds_open (find_step u.id r.steps) ≡ true
    → transition_step u.id RunStepStatus.cancelled now r
      ≡ ok (record r { steps = update_step u.id RunStepStatus.cancelled now r.steps })
unfolding transition_step can_transition_step
cancel_open u now r h = found_cases (find_step u.id r.steps) refl h
  where
    found_cases :
        (o : Option Step)
        → find_step u.id r.steps ≡ o
        → holds_open o ≡ true
        → transition_step u.id RunStepStatus.cancelled now r
          ≡ ok (record r { steps = update_step u.id RunStepStatus.cancelled now r.steps })
    found_cases none e h = ground (arith, h)
    found_cases (some t) e h = rw (e, transition_step) (ground (arith, h))

-- One round of the loop, when the rest of it succeeds.
next_step-ok :
    (u : Step) (l : List Step) (now : ℕ) (r : Run) (b : Bool)
    → is_open u.status ≡ b
    → all (λ t. not (t.id == u.id)) l ≡ true
    → is_found r.steps u ≡ true
    → found l r.steps ≡ true
    → ((r' : Run) → found l r'.steps ≡ true → is_ok (cancel_steps l now r') ≡ true)
    → is_ok (
        (if b then transition_step u.id RunStepStatus.cancelled now r else ok r) >>= λ r'.
        cancel_steps l now r')
      ≡ true
next_step-ok u l now r false e others first rest k = k r rest
next_step-ok u l now r true e others first rest k =
    ap (λ m. is_ok (m >>= λ r'. cancel_steps l now r'))
      (cancel_open u now r (ap (λ b. not b || holds_open (find_step u.id r.steps)) (sym e) ∙ first))
    ∙ k (record r { steps = update_step u.id RunStepStatus.cancelled now r.steps })
        (found_update l u.id now r.steps others rest)

cancel_steps-ok :
    (l : List Step) (now : ℕ) (r : Run)
    → keyed l ≡ true
    → found l r.steps ≡ true
    → is_ok (cancel_steps l now r) ≡ true
unfolding cancel_steps
cancel_steps-ok [] now r d h = refl
cancel_steps-ok (u ∷ l) now r d h =
    next_step-ok u l now r (is_open u.status) refl (and_left _ (keyed l) d)
      (and_left (is_found r.steps u) (found l r.steps) h)
      (and_right (is_found r.steps u) (found l r.steps) h)
      (λ r'. cancel_steps-ok l now r' (and_right (all (λ t. not (t.id == u.id)) l) (keyed l) d))

transition_run-ok :
    (reason : Option String) (now : ℕ) (r : Run)
    → can_transition_run r.status AgentRunStatus.cancelled ≡ true
    → transition_run AgentRunStatus.cancelled reason now r
      ≡ ok (move_run AgentRunStatus.cancelled reason now r)
unfolding transition_run
transition_run-ok reason now r h = ground (arith, h)

cancel_live-ok :
    (reason : Option String) (s : Stamp) (r : Run)
    → can_transition_run r.status AgentRunStatus.cancelled ≡ true
    → keyed r.steps ≡ true
    → is_ok (cancel_live reason s r) ≡ true
unfolding cancel_live
cancel_live-ok reason s r live d =
    finished (cancel_steps r.steps s.now r)
      (cancel_steps-ok r.steps s.now r d (found_self r.steps d))
      (cancel_steps-keeps (λ r'. r'.status ≡ r.status) (λ _ _ e. e) r.steps s.now r refl)
  where
    finished :
        (m : Result ExecutionError Run)
        → is_ok m ≡ true
        → Post (λ r'. r'.status ≡ r.status) m
        → is_ok (
            m >>= λ r₁. transition_run AgentRunStatus.cancelled reason s.now r₁ >>= λ r₂.
            ok (append_control s.second_id s.now (runtime RuntimeEventType.run_cancelled) none r₂))
          ≡ true
    finished (ok r₁) h p =
        ap
          (λ m. is_ok (
            m >>= λ r₂.
            ok (append_control s.second_id s.now (runtime RuntimeEventType.run_cancelled) none r₂)))
          (transition_run-ok reason s.now r₁
            (ap (λ x. can_transition_run x AgentRunStatus.cancelled) p.holds ∙ live))
    finished (err e) h p = h

-- Cancelling a run that may move to `CANCELLED`, and whose steps have distinct identifiers, succeeds.
pub cancel_run_succeeds :
    (reason : Option String) (s : Stamp) (r : Run)
    → can_transition_run r.status AgentRunStatus.cancelled ≡ true
    → keyed r.steps ≡ true
    → is_ok (cancel_run reason s r) ≡ true
unfolding cancel_run
cancel_run_succeeds reason s r live d =
    ap (λ b. is_ok (if b then cancel_live reason s r else err ExecutionError.run_terminal)) live
    ∙ cancel_live-ok reason s r live d
