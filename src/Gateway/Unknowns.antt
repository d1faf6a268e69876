-- ===== src/Gateway/Unknowns.antt =====
-- apps/control-plane-api/src/actions/action-gateway.ts and action-reconciliation.ts: a write whose
-- outcome nobody knows, and the answer of a person.
use mathlib.Core.Option
use employee_agent_platform.Prelude.{
  ◌⊎◌, ==_iff, ℕ, ◌≡◌, ◌≢◌, refl, true, false, Option, none, some, List, map, arith, ap, ◌∙◌,
}
use employee_agent_platform.Prelude.Result.{
  ok, err, Post, Post-if, Post-option, Post-value, Post-error, Post-ok,
}
use employee_agent_platform.Gateway.{
  Ledger, RunRow, ActionExecution, dispatching, is_dispatching, Reconciliation, ReconciliationState,
  required, is_required, find_by, find_run, find_execution, reconciliation_resolved,
}
use employee_agent_platform.Gateway.Registry.{writes, effect}
use employee_agent_platform.Gateway.Reconcile.{
  require, find_reconciliation, Verification, Resolution, is_applied, is_not_applied, resolve,
  resolve_row,
}
use employee_agent_platform.Gateway.Plan.{Reply, PendingDispatch, close, is_open}
use employee_agent_platform.Gateway.Complete.{
  Answer, unconfirmed, threw, dispatch, completed_with, settle, unknown_of, complete_execution,
}
use employee_agent_platform.Gateway.Books.{require-executions}
use employee_agent_platform.Gateway.Rows.{find_by-key, find_by-map}
use employee_agent_platform.Gateway.Awaited.{awaits}
use employee_agent_platform.Gateway.Closing.{
  unknown_reply, unknown_row, require-awaits, dispatch-unknown, find-close,
}

-- If a connector cannot say what became of a write, or throws, then the runtime is told that it failed with
-- an unknown outcome and without a result, the execution is recorded so, and a reconciliation of the write
-- is open, of which there was none before.
pub complete_execution-awaits :
    (p : PendingDispatch) (a : Answer) (now : ℕ) (l : Ledger) (run : RunRow) (e : ActionExecution)
    → find_run p.run_id l ≡ some run
    → effect p.handler ≡ writes
    → find_execution p.request_id l ≡ some e
    → e.status ≡ dispatching
    → find_reconciliation p.request_id l ≡ none
    → (a ≡ unconfirmed) ⊎ (a ≡ threw)
    → (l' : Ledger) × (complete_execution p (dispatch p a) now l
        ≡ ok (unknown_reply p.request_id, l'))
      × (find_execution p.request_id l' ≡ some (unknown_row now e))
      × (awaits p.action p.payload_digest l' ≡ true)
unfolding complete_execution settle
complete_execution-awaits p a now l run e r w x s n o = (
  require (unknown_of p) now closed,
  ap (λ y. complete_execution p y now l) (dispatch-unknown p a w o) ∙ completed,
  ap (find_by (λ y. y.request_id) p.request_id) (require-executions (unknown_of p) now closed).0
      ∙ find-close p.request_id (completed_with reply now) l e (λ y. refl) x s,
  require-awaits (unknown_of p) now closed run r n,
)
  where
    reply : Reply
    reply = unknown_reply p.request_id

    closed : Ledger
    closed = close p.request_id (completed_with reply now) l

    opened : is_open p.request_id l ≡ true
    opened =
        ap
          (λ (o : Option ActionExecution). elim o [
            | none ↦ false
            | some y ↦ is_dispatching y.status
          ])
          x
        ∙ ap is_dispatching s

    completed : complete_execution p reply now l ≡ ok (reply, require (unknown_of p) now closed)
    completed = rw (complete_execution, opened, settle, w) refl

-- The row of an answer.
abbrev pub answered_row : Verification → Reconciliation → Reconciliation
answered_row v x = record x {
  state = elim v.resolution [
    | is_applied ↦ ReconciliationState.applied
    | is_not_applied ↦ ReconciliationState.not_applied
  ];
  resolved_by = some v.actor_id;
  resolved_at = some v.now;
  note = v.note;
}

resolve_row-key :
    (id : ℕ) (v : Verification) (x : Reconciliation)
    → (resolve_row id v x).request_id ≡ x.request_id
resolve_row-key id v x = ground arith

find-resolve_row :
    (id : ℕ) (v : Verification) (k : ℕ) (l : List Reconciliation)
    → find_by (λ x. x.request_id) k (map (resolve_row id v) l)
      ≡ Option.map (resolve_row id v) (find_by (λ x. x.request_id) k l)
find-resolve_row id v k l =
    find_by-map (λ x. x.request_id) (resolve_row id v) (resolve_row-key id v) k l

-- What the answer does to the rows that are found.
answered_itself :
    (id : ℕ) (v : Verification) (x : Reconciliation)
    → x.request_id ≡ id
    → is_required x.state ≡ true
    → resolve_row id v x ≡ answered_row v x
answered_itself id v x h k = rw ((==_iff x.request_id id).1 h, k) refl

answered_other :
    (id k : ℕ) (v : Verification) (l : List Reconciliation)
    → k ≢ id
    → Option.map (resolve_row id v) (find_by (λ x. x.request_id) k l)
      ≡ find_by (λ x. x.request_id) k l
answered_other id k v l n = told (find_by (λ x. x.request_id) k l) refl
  where
    told :
        (o : Option Reconciliation)
        → find_by (λ x. x.request_id) k l ≡ o
        → Option.map (resolve_row id v) o ≡ o
    told none e = refl
    told (some x) e = ap some (ground (arith, n, find_by-key (λ x. x.request_id) k l x e))

is_required-state : (x : ReconciliationState) → is_required x ≡ true → x ≡ required
is_required-state required h = refl
is_required-state ReconciliationState.applied h = absurd (cc)
is_required-state ReconciliationState.not_applied h = absurd (cc)

answered_row-not_required :
    (v : Verification) (x : Reconciliation) → is_required (answered_row v x).state ≡ false
answered_row-not_required v x = said v.resolution
  where
    said :
        (r : Resolution)
        → is_required (elim r [
          | is_applied ↦ ReconciliationState.applied
          | is_not_applied ↦ ReconciliationState.not_applied
        ])
          ≡ false
    said is_applied = refl
    said is_not_applied = refl

resolve-again :
    (id : ℕ) (v : Verification) (l : Ledger) (x : Reconciliation)
    → find_reconciliation id l ≡ some x
    → is_required x.state ≡ false
    → resolve id v l ≡ err reconciliation_resolved
unfolding resolve
resolve-again id v l x h k = rw (resolve, h, k) refl

-- An answer that is taken: there was an open reconciliation.
abbrev Taken : ℕ → Verification → Ledger → Ledger → Type 0
Taken id v l l' =
    (x : Reconciliation) × (find_reconciliation id l ≡ some x)
    × (is_required x.state ≡ true)
    × (l' ≡ record l { reconciliations = map (resolve_row id v) l.reconciliations })

resolve-Taken : (id : ℕ) (v : Verification) (l : Ledger) → Post (Taken id v l) (resolve id v l)
unfolding resolve
resolve-Taken id v l =
    Post-option (find_reconciliation id l) _ _ (λ _. Post-error _)
      (λ x e.
        Post-if (is_required x.state) _ _ (λ y. Post-value _ (x, e, y, refl)) (λ _. Post-error _))

-- An answer is taken once: it closes the reconciliation of that request with what the person said, leaves
-- every other as it was, and a second answer is an error.
pub resolve_once :
    (id k : ℕ) (v v' : Verification) (l l' : Ledger)
    → k ≢ id
    → resolve id v l ≡ ok l'
    → (x : Reconciliation) × (find_reconciliation id l ≡ some x)
      × (x.state ≡ required)
      × (find_reconciliation id l' ≡ some (answered_row v x))
      × (find_reconciliation k l' ≡ find_reconciliation k l)
      × (resolve id v' l' ≡ err reconciliation_resolved)
resolve_once id k v v' l l' n h =
    let (x, found, y, same) = Post-ok (resolve id v l) l' (resolve-Taken id v l) h in
    let row =
      ap (λ (m : Ledger). find_reconciliation id m) same
      ∙ find-resolve_row id v id l.reconciliations
      ∙ ap (Option.map (resolve_row id v)) found
      ∙ ap some (
          answered_itself id v x (find_by-key (λ z. z.request_id) id l.reconciliations x found)
            y) in
    let other =
      ap (λ (m : Ledger). find_reconciliation k m) same
      ∙ find-resolve_row id v k l.reconciliations
      ∙ answered_other id k v l.reconciliations n in
    (
      x,
      found,
      is_required-state x.state y,
      row,
      other,
      resolve-again id v' l' (answered_row v x) row (answered_row-not_required v x),
    )
