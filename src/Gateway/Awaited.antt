-- ===== src/Gateway/Awaited.antt =====
-- apps/control-plane-api/src/actions/action-reconciliation.ts: what the calls do to the writes whose
-- outcome nobody knows.
use employee_agent_platform.Prelude.{
  Bool-cases, Option-cases, inl, inr, ℕ, ◌≡◌, refl, String, Bool, true, false, ◌&&◌, ◌||◌, Option,
  none, some, List, [], ◌∷◌, any, ◌==◌, str_eq, if◌then◌else◌, arith, sym, ap, ◌∙◌, is_some,
}
use employee_agent_platform.Prelude.Result.{ok, Post, Post-if, Post-option, Post-value, Post-error}
use employee_agent_platform.Gateway.{
  Ledger, ActionRequest, ActionExecution, UnknownReason, Reconciliation, is_required, find_run,
  find_request, find_execution,
}
use employee_agent_platform.Gateway.Registry.{
  Effect, reads, writes, effect, is_write, control_plane_action,
}
use employee_agent_platform.Gateway.Reconcile.{
  Unknown, require, require_in, new_reconciliation, find_reconciliation, blocks, holds_back,
}
use employee_agent_platform.Gateway.World.{World}
use employee_agent_platform.Gateway.Plan.{
  PendingDispatch, Reply, close, is_open, interrupted_at, require_if, interrupt,
}
use employee_agent_platform.Gateway.Complete.{
  completed_with, settle, unknown_of, complete_execution, interrupt_row, interrupt_rows, is_unknown,
  effect_of,
}

-- Somebody has yet to say whether this write of this payload took place.
abbrev pub is_awaited : String → ℕ → Reconciliation → Bool
is_awaited action digest x =
    str_eq x.action action && (x.payload_digest == digest && is_required x.state)

abbrev pub awaits : String → ℕ → Ledger → Bool
awaits action digest l = any (is_awaited action digest) l.reconciliations

pub record Stays (l l' : Ledger) : Type 0 where
  pub at :
      (action : String) (digest : ℕ)
      → awaits action digest l ≡ true
      → awaits action digest l' ≡ true

pub Stays-refl : (l : Ledger) → Stays l l
Stays-refl l = record { at = λ a d h. h }

pub Stays-trans : (l m n : Ledger) → Stays l m → Stays m n → Stays l n
Stays-trans l m n h k = record { at = λ a d x. k.at a d (h.at a d x) }

pub Stays-same : (l l' : Ledger) → l'.reconciliations ≡ l.reconciliations → Stays l l'
Stays-same l l' e = record { at = λ a d h. ap (any (is_awaited a d)) e ∙ h }

pub Stays-if : (b : Bool) (l m n : Ledger) → Stays l m → Stays l n → Stays l (if b then m else n)
Stays-if true l m n h k = h
Stays-if false l m n h k = k

or_right : (a b : Bool) → b ≡ true → (a || b) ≡ true
or_right true b h = refl
or_right false b h = h

Stays-require_in : (t : ℕ) (u : Unknown) (now : ℕ) (l : Ledger) → Stays l (require_in t u now l)
unfolding require_in
Stays-require_in t u now l =
    Stays-if (is_some (find_reconciliation u.request_id l)) l l _ (Stays-refl l) (record {
      at = λ a d h. or_right (is_awaited a d (new_reconciliation u t now)) (awaits a d l) h;
    })

pub Stays-require : (u : Unknown) (now : ℕ) (l : Ledger) → Stays l (require u now l)
unfolding require
Stays-require u now l = elim (Option-cases (find_run u.run_id l)) [
  | inl h ↦ rw (h, require) (Stays-refl l)
  | inr (r, h) ↦ rw (h, require) (Stays-require_in r.state.thread_id u now l)
]

Stays-require_if :
    (w : World) (x : Effect) (why : UnknownReason) (id run_id : ℕ) (action : String) (p : Option ℕ)
    (now : ℕ) (l : Ledger)
    → Stays l (require_if w x why id run_id action p now l)
unfolding require_if
Stays-require_if w writes why id run_id action (some p) now l = Stays-require _ now l
Stays-require_if w writes why id run_id action none now l = Stays-refl l
Stays-require_if w reads why id run_id action p now l = Stays-refl l

-- Closing an execution is no answer.
Stays-close :
    (id : ℕ) (f : ActionExecution → ActionExecution) (l m : Ledger)
    → Stays (close id f l) m
    → Stays l m
Stays-close id f l m h = Stays-trans l (close id f l) m (Stays-same l (close id f l) refl) h

pub Stays-interrupt :
    (w : World) (x : Effect) (q : ActionRequest) (run_id now : ℕ) (l : Ledger)
    → Stays l (interrupt w x q run_id now l)
unfolding interrupt
Stays-interrupt w x q run_id now l =
    Stays-if (is_open q.id l) l _ l
      (Stays-close q.id (interrupted_at now) l _ (
        Stays-require_if w x UnknownReason.was_interrupted q.id run_id q.action q.parameters now _))
      (Stays-refl l)

pub Stays-complete_execution :
    (p : PendingDispatch) (r : Reply) (now : ℕ) (l : Ledger)
    → Post (λ x. Stays l x.1) (complete_execution p r now l)
unfolding complete_execution settle
Stays-complete_execution p r now l =
    Post-if (is_open p.request_id l) (ok (r, settle p r now closed)) _
      (λ _. Post-value _ (
        Stays-close p.request_id (completed_with r now) l _ (
          Stays-if (is_write (effect p.handler) && is_unknown r.error) closed _ closed
            (Stays-require (unknown_of p) now closed) (Stays-refl closed))))
      (λ _.
        Post-option (find_execution p.request_id l) _ _ (λ _. Post-error _)
          (λ e _. Post-value _ (Stays-refl l)))
  where
    closed : Ledger
    closed = close p.request_id (completed_with r now) l

Stays-interrupt_row :
    (w : World) (now : ℕ) (e : ActionExecution) (l : Ledger) → Stays l (interrupt_row w now e l)
unfolding interrupt_row
Stays-interrupt_row w now e l = elim (Option-cases (find_request e.request_id l)) [
  | inl h ↦ rw (h, interrupt_row) (Stays-refl l)
  | inr (q, h) ↦
      rw (h, interrupt_row)
        (Stays-interrupt w (effect_of (control_plane_action q.action)) q e.run_id now l)
]

pub Stays-interrupt_rows :
    (w : World) (now : ℕ) (rows : List ActionExecution) (l : Ledger)
    → Stays l (interrupt_rows w now rows l)
unfolding interrupt_rows
Stays-interrupt_rows w now [] l = Stays-refl l
Stays-interrupt_rows w now (e ∷ rest) l =
    Stays-trans l (interrupt_row w now e l) _ (Stays-interrupt_row w now e l)
      (Stays-interrupt_rows w now rest (interrupt_row w now e l))

-- What is awaited holds back the same write in every thread.
pub blocks-awaits :
    (t : ℕ) (action : String) (digest : ℕ) (l : Ledger)
    → awaits action digest l ≡ true
    → blocks t action digest l ≡ true
unfolding blocks
blocks-awaits t action digest l h = among l.reconciliations h
  where
    same :
        (x : Reconciliation)
        → is_awaited action digest x ≡ true
        → holds_back t action digest x ≡ true
    same x k = ground (arith, k)

    among :
        (rows : List Reconciliation)
        → any (is_awaited action digest) rows ≡ true
        → any (holds_back t action digest) rows ≡ true
    among [] k = k
    among (x ∷ rows) k = elim (Bool-cases (is_awaited action digest x)) [
      | inl y ↦ ap (λ b. b || any (holds_back t action digest) rows) (same x y)
      | inr n ↦
          or_right (holds_back t action digest x) _
            (among rows (sym (ap (λ b. b || any (is_awaited action digest) rows) n) ∙ k))
    ]
