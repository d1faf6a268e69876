-- ===== src/Gateway/Closing.antt =====
-- apps/control-plane-api/src/actions/action-gateway.ts, `dispatch` and `completeExecution`: a write whose
-- outcome nobody knows, and the row of an execution that is closed.
use mathlib.Core.Option
use employee_agent_platform.Prelude.{
  inl, inr, ◌⊎◌, ==_iff, eq_iff, ℕ, ◌≡◌, refl, true, false, ◌||◌, none, some, arith, ap, ◌∙◌,
}
use employee_agent_platform.Gateway.{
  Ledger, RunRow, ActionExecution, ExecutionStatus, outcome_unknown, dispatching, find_run,
  find_execution,
}
use employee_agent_platform.Gateway.Registry.{writes, effect}
use employee_agent_platform.Gateway.Reconcile.{
  Unknown, require, require_in, new_reconciliation, find_reconciliation,
}
use employee_agent_platform.Gateway.Plan.{Reply, PendingDispatch, close, close_row}
use employee_agent_platform.Gateway.Complete.{Answer, unconfirmed, threw, dispatch}
use employee_agent_platform.Gateway.Rows.{find_by-key, find_by-map}
use employee_agent_platform.Gateway.Awaited.{awaits, is_awaited}

pub require-awaits :
    (u : Unknown) (now : ℕ) (l : Ledger) (run : RunRow)
    → find_run u.run_id l ≡ some run
    → find_reconciliation u.request_id l ≡ none
    → awaits u.action u.payload_digest (require u now l) ≡ true
unfolding require require_in
require-awaits u now l run h k =
    rw (require, h, require_in, k) (ap (λ b. b || awaits u.action u.payload_digest l) there)
  where
    there :
        is_awaited u.action u.payload_digest (new_reconciliation u run.state.thread_id now) ≡ true
    there =
        rw ((eq_iff u.action u.action).1 refl, (==_iff u.payload_digest u.payload_digest).1 refl)
          refl

-- What the runtime is told of a write whose outcome nobody knows, and what is recorded of it.
abbrev pub unknown_reply : ℕ → Reply
unknown_reply id = record {
  request_id = id;
  succeeded = false;
  result = none;
  error = some outcome_unknown;
}

abbrev pub unknown_row : ℕ → ActionExecution → ActionExecution
unknown_row now e = record e {
  status = ExecutionStatus.failed;
  result = none;
  error_code = some outcome_unknown;
  completed_at = some now;
}

pub dispatch-unknown :
    (p : PendingDispatch) (a : Answer)
    → effect p.handler ≡ writes
    → (a ≡ unconfirmed) ⊎ (a ≡ threw)
    → dispatch p a ≡ unknown_reply p.request_id
unfolding dispatch
dispatch-unknown p a h (inl e) = ap (dispatch p) e ∙ rw (dispatch, h) refl
dispatch-unknown p a h (inr e) = ap (dispatch p) e ∙ rw (dispatch, h) refl

close_row-key :
    (id : ℕ) (f : ActionExecution → ActionExecution)
    → ((e : ActionExecution) → (f e).request_id ≡ e.request_id)
    → (e : ActionExecution) → (close_row id f e).request_id ≡ e.request_id
close_row-key id f keyed e = ground (arith, keyed e)

-- The row of an open execution, once it is closed.
pub find-close :
    (id : ℕ) (f : ActionExecution → ActionExecution) (l : Ledger) (e : ActionExecution)
    → ((x : ActionExecution) → (f x).request_id ≡ x.request_id)
    → find_execution id l ≡ some e
    → e.status ≡ dispatching
    → find_execution id (close id f l) ≡ some (f e)
find-close id f l e keyed x s =
    find_by-map (λ x. x.request_id) (close_row id f) (close_row-key id f keyed) id l.executions
    ∙ ap (Option.map (close_row id f)) x
    ∙ ap some (
        rw ((==_iff e.request_id id).1 (find_by-key (λ x. x.request_id) id l.executions e x), s)
          refl)
