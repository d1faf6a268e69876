-- ===== src/Gateway/Complete.antt =====
-- apps/control-plane-api/src/actions/action-gateway.ts, `dispatch`, `completeExecution` and
-- `reconcileInterrupted`: what becomes of a dispatch.
use employee_agent_platform.Prelude.{
  ℕ, ◌+◌, Bool, true, false, ◌&&◌, not, Option, none, some, List, [], ◌∷◌, ltb, if◌then◌else◌,
  is_some, zero, suc,
}
use employee_agent_platform.Prelude.Result.{Result, ok, err}
use employee_agent_platform.Gateway.{
  Ledger, ActionExecution, ExecutionStatus, FailureCode, outcome_unknown, request_failed,
  connector_failed, connector, connector_outcome_unknown, GatewayError, row_missing, is_dispatching,
  find_request, find_run, find_execution, sort_by,
}
use employee_agent_platform.Gateway.Registry.{
  Handler, Effect, reads, writes, control_plane_action, effect, is_write,
}
use employee_agent_platform.Gateway.Reconcile.{Unknown, require}
use employee_agent_platform.Gateway.World.{World}
use employee_agent_platform.Gateway.Plan.{
  Reply, PendingDispatch, stored_execution, close, is_open, interrupt,
}

-- How the call of a connector ends: with a result, with an error of the connector that says that the
-- outcome is unknown or has another code, or with any other exception.
pub data Answer : Type 0 where
  answered : ℕ → Answer
  unconfirmed : Answer
  rejected_with : ℕ → Answer
  threw : Answer

abbrev pub code_of : Effect → Answer → Option FailureCode
code_of x (answered r) = none
code_of reads unconfirmed = some request_failed
code_of writes unconfirmed = some outcome_unknown
code_of x (rejected_with n) = some (connector n)
code_of reads threw = some connector_failed
code_of writes threw = some outcome_unknown

abbrev result_of : Answer → Option ℕ
result_of (answered r) = some r
result_of unconfirmed = none
result_of (rejected_with n) = none
result_of threw = none

unfoldable pub dispatch : PendingDispatch → Answer → Reply
dispatch p a = record {
  request_id = p.request_id;
  succeeded = not (is_some (code_of (effect p.handler) a));
  result = result_of a;
  error = code_of (effect p.handler) a;
}

abbrev pub completed_with : Reply → ℕ → ActionExecution → ActionExecution
completed_with r now e = record e {
  status = if r.succeeded then ExecutionStatus.succeeded else ExecutionStatus.failed;
  result = r.result;
  error_code = r.error;
  completed_at = some now;
}

abbrev pub is_unknown : Option FailureCode → Bool
is_unknown none = false
is_unknown (some c) = elim c [ outcome_unknown ↦ true | _ ↦ false ]

abbrev pub unknown_of : PendingDispatch → Unknown
unknown_of p = record {
  request_id = p.request_id;
  run_id = p.run_id;
  action = p.action;
  payload_digest = p.payload_digest;
  reason = connector_outcome_unknown;
}

unfoldable pub settle : PendingDispatch → Reply → ℕ → Ledger → Ledger
settle p r now l =
    if is_write (effect p.handler) && is_unknown r.error then require (unknown_of p) now l else l

-- A dispatch that was closed as interrupted stays closed.
unfoldable pub complete_execution :
    PendingDispatch → Reply → ℕ → Ledger → Result GatewayError (Reply × Ledger)
complete_execution p r now l =
    if is_open p.request_id l
    then ok (r, settle p r now (close p.request_id (completed_with r now) l))
    else elim (find_execution p.request_id l) [
      | none ↦ err row_missing
      | some e ↦ ok (stored_execution e, l)
    ]

-- Of an action that the control plane no longer knows, the effect is taken to be a write.
abbrev pub effect_of : Option Handler → Effect
effect_of none = writes
effect_of (some h) = effect h

-- The joins with the request and the run.
unfoldable pub interrupt_row : World → ℕ → ActionExecution → Ledger → Ledger
interrupt_row w now e l = elim (find_request e.request_id l) [
  | none ↦ l
  | some q ↦ interrupt w (effect_of (control_plane_action q.action)) q e.run_id now l
]

abbrev pub is_stale : ℕ → ℕ → Ledger → ActionExecution → Bool
is_stale stale now l e =
    is_dispatching e.status
    && (ltb (e.started_at + stale) now
        && (is_some (find_request e.request_id l) && is_some (find_run e.run_id l)))

abbrev stale_of : ℕ → ℕ → Ledger → List ActionExecution → List ActionExecution
stale_of stale now l [] = []
stale_of stale now l (e ∷ rest) =
    if is_stale stale now l e then e ∷ stale_of stale now l rest else stale_of stale now l rest

abbrev at_most : ℕ → List ActionExecution → List ActionExecution
at_most zero l = []
at_most (suc n) [] = []
at_most (suc n) (e ∷ l) = e ∷ at_most n l

unfoldable pub interrupt_rows : World → ℕ → List ActionExecution → Ledger → Ledger
interrupt_rows w now [] l = l
interrupt_rows w now (e ∷ rest) l = interrupt_rows w now rest (interrupt_row w now e l)

-- The source's limit of 100 counts the rows of every organization: `room` is what it leaves here.
unfoldable pub reconcile_interrupted : World → (room stale now : ℕ) → Ledger → Ledger
reconcile_interrupted w room stale now l =
    interrupt_rows w now
      (at_most room (sort_by (λ e. e.started_at) (stale_of stale now l l.executions))) l
