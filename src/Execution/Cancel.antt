-- ===== src/Execution/Cancel.antt =====
-- apps/control-plane-api/src/execution/execution-service.ts: cancelling a run closes its steps.
pub mod Succeeds
use employee_agent_platform.Prelude.{
  ℕ, String, ◌≡◌, refl, Bool, true, false, ◌&&◌, ◌||◌, not, Option, List, [], ◌∷◌, any, all, subst,
  sym, ◌==◌, arith,
}
use employee_agent_platform.Prelude.Result.{
  ok, Post, Post-if, Post-option, Post-bind, Post-map, Post-ok, Post-value, Post-error,
}
use employee_agent_platform.Lifecycle.{
  AgentRunStatus, RunStepStatus, can_transition_run, can_transition_step,
}
use employee_agent_platform.Execution.{
  Run, Step, is_terminal_step, Stamp, find_step, append_control, transition_run, move_run,
  transition_step, update_step,
}
use employee_agent_platform.Execution.Frame.{transition_run-Moves}
use employee_agent_platform.Execution.Decisions.{is_open, cancel_steps, cancel_live, cancel_run}

-- A step that is closed, or still to be cancelled.
abbrev expected : List Step → Step → Bool
expected l t = not (is_open t.status) || any (λ u. is_open u.status && u.id == t.id) l

AllExpected : List Step → List Step → Type 0
AllExpected l steps = all (expected l) steps ≡ true

expected_first :
    (u : Step) (rest steps : List Step) (now : ℕ)
    → is_open u.status ≡ true
    → AllExpected (u ∷ rest) steps
    → AllExpected rest (update_step u.id RunStepStatus.cancelled now steps)
unfolding AllExpected update_step
expected_first u rest [] now o h = refl
expected_first u rest (t ∷ steps) now o h = ground (arith, expected_first u rest steps now o)

expected_next :
    (u : Step) (rest steps : List Step)
    → is_open u.status ≡ false
    → AllExpected (u ∷ rest) steps
    → AllExpected rest steps
unfolding AllExpected
expected_next u rest [] o h = refl
expected_next u rest (t ∷ steps) o h = ground (arith, expected_next u rest steps o)

expected_more :
    (u : Step) (rest steps : List Step) → AllExpected rest steps → AllExpected (u ∷ rest) steps
unfolding AllExpected
expected_more u rest [] h = refl
expected_more u rest (t ∷ steps) h = ground (arith, expected_more u rest steps)

expected_self : (l : List Step) → AllExpected l l
unfolding AllExpected
expected_self [] = refl
expected_self (u ∷ l) = ground (arith, expected_more u l l (expected_self l))

expected_none :
    (steps : List Step) → AllExpected [] steps → all (λ t. not (is_open t.status)) steps ≡ true
unfolding AllExpected
expected_none [] h = refl
expected_none (t ∷ steps) h = ground (arith, expected_none steps)

abbrev NoneOpen : Run → Type 0
NoneOpen r = all (λ t. not (is_open t.status)) r.steps ≡ true

cancel_one :
    (u : Step) (rest : List Step) (now : ℕ) (r : Run)
    → is_open u.status ≡ true
    → AllExpected (u ∷ rest) r.steps
    → Post (λ r'. AllExpected rest r'.steps) (transition_step u.id RunStepStatus.cancelled now r)
unfolding transition_step
cancel_one u rest now r o h =
    Post-option (find_step u.id r.steps) _ _ (λ _. Post-error _)
      (λ t _.
        Post-if (can_transition_step t.status RunStepStatus.cancelled)
          (ok (record r { steps = update_step u.id RunStepStatus.cancelled now r.steps })) _
          (λ _. Post-value _ (expected_first u rest r.steps now o h)) (λ _. Post-error _))

cancel_steps-NoneOpen :
    (l : List Step) (now : ℕ) (r : Run)
    → AllExpected l r.steps
    → Post NoneOpen (cancel_steps l now r)
unfolding cancel_steps
cancel_steps-NoneOpen [] now r h = Post-value r (expected_none r.steps h)
cancel_steps-NoneOpen (u ∷ rest) now r h =
    Post-bind {P = λ r'. AllExpected rest r'.steps} _ _
      (Post-if (is_open u.status) (transition_step u.id RunStepStatus.cancelled now r) (ok r)
        (λ o. cancel_one u rest now r o h) (λ o. Post-value _ (expected_next u rest r.steps o h)))
      (λ r₁ h₁. cancel_steps-NoneOpen rest now r₁ h₁)

Cancelled : Option String → Run → Type 0
Cancelled reason r = NoneOpen r × (r.status ≡ AgentRunStatus.cancelled) × (r.status_reason ≡ reason)

transition_run-Cancelled :
    (reason : Option String) (now : ℕ) (r : Run)
    → NoneOpen r
    → Post (Cancelled reason) (transition_run AgentRunStatus.cancelled reason now r)
unfolding Cancelled
transition_run-Cancelled reason now r h =
    Post-map _ (λ r' m. subst (Cancelled reason) (sym m.1) moved)
      (transition_run-Moves AgentRunStatus.cancelled reason now r)
  where
    moved : Cancelled reason (move_run AgentRunStatus.cancelled reason now r)
    moved = (h, refl, refl)

cancel_live-Cancelled :
    (reason : Option String) (s : Stamp) (r : Run)
    → Post (Cancelled reason) (cancel_live reason s r)
unfolding cancel_live append_control Cancelled
cancel_live-Cancelled reason s r =
    Post-bind _ _ (cancel_steps-NoneOpen r.steps s.now r (expected_self r.steps)) (λ r₁ h₁.
      Post-bind _ _ (transition_run-Cancelled reason s.now r₁ h₁) (λ r₂ h₂. Post-value _ h₂))

closed_ended :
    (l : List Step)
    → all (λ t. not (is_open t.status)) l ≡ true
    → all (λ t. is_terminal_step t.status) l ≡ true
closed_ended [] h = refl
closed_ended (t ∷ l) h = ground (arith, closed_ended l)

-- Cancelling succeeds only for a run that is not final, and leaves it cancelled for the given reason
-- with every step in a final status.
pub cancel_run_closes :
    (reason : Option String) (s : Stamp) (r r' : Run)
    → cancel_run reason s r ≡ ok r'
    → (can_transition_run r.status AgentRunStatus.cancelled ≡ true)
      × (all (λ t. is_terminal_step t.status) r'.steps ≡ true)
      × (r'.status ≡ AgentRunStatus.cancelled)
      × (r'.status_reason ≡ reason)
unfolding cancel_run Cancelled
cancel_run_closes reason s r r' e =
    let h = Post-ok _ r' closes e in (h.0, closed_ended r'.steps h.1.0, h.1.1, h.1.2)
  where
    closes :
        Post
          (λ r'.
            (can_transition_run r.status AgentRunStatus.cancelled ≡ true) × Cancelled reason r')
          (cancel_run reason s r)
    closes =
        Post-if (can_transition_run r.status AgentRunStatus.cancelled) (cancel_live reason s r) _
          (λ live. Post-map _ (λ r₁ h₁. (live, h₁)) (cancel_live-Cancelled reason s r))
          (λ _. Post-error _)
