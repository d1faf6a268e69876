-- ===== src/Gateway/Plan.antt =====
-- apps/control-plane-api/src/actions/action-gateway.ts: a dispatch, the rows of executions, and `interrupt`.
use employee_agent_platform.Prelude.{
  ℕ, String, Bool, true, false, ◌&&◌, Option, none, some, ◌∷◌, ◌==◌, if◌then◌else◌, map,
}
use employee_agent_platform.Gateway.{
  Ledger, ActionRequest, ActionExecution, ExecutionStatus, dispatching, succeeded, failed,
  FailureCode, dispatch_interrupted, action_failed, UnknownReason, was_interrupted, is_dispatching,
  find_execution, ChangeSet,
}
use employee_agent_platform.Gateway.Registry.{Handler, Effect, reads, writes}
use employee_agent_platform.Gateway.Reconcile.{require}
use employee_agent_platform.Gateway.World.{World, Connection}

-- What the runtime is told of an execution.
pub record Reply : Type 0 where
  pub request_id : ℕ
  pub succeeded : Bool
  pub result : Option ℕ
  pub error : Option FailureCode

-- A dispatch that the gateway has committed to.
pub record PendingDispatch : Type 0 where
  pub request_id : ℕ
  pub run_id : ℕ
  pub handler : Handler
  pub action : String
  pub parameters : ℕ
  pub connection : Connection
  pub change_set : Option ChangeSet
  pub payload_digest : ℕ

pub data Plan : Type 0 where
  finished : Reply → Plan
  to_dispatch : PendingDispatch → Plan

abbrev is_succeeded : ExecutionStatus → Bool
is_succeeded succeeded = true
is_succeeded dispatching = false
is_succeeded failed = false

-- `storedExecution`: whatever has not succeeded reads as failed.
unfoldable pub stored_execution : ActionExecution → Reply
stored_execution e = record {
  request_id = e.request_id;
  succeeded = is_succeeded e.status;
  result = e.result;
  error =
      if is_succeeded e.status
      then none
      else elim e.error_code [ none ↦ some action_failed | some c ↦ some c ];
}

-- An update `WHERE request_id=? AND status='DISPATCHING'`.
abbrev pub close_row : ℕ → (ActionExecution → ActionExecution) → ActionExecution → ActionExecution
close_row id f e = if e.request_id == id && is_dispatching e.status then f e else e

abbrev pub close : ℕ → (ActionExecution → ActionExecution) → Ledger → Ledger
close id f l = record l { executions = map (close_row id f) l.executions }

-- `changes === 1`
abbrev pub is_open : ℕ → Ledger → Bool
is_open id l = elim (find_execution id l) [ none ↦ false | some e ↦ is_dispatching e.status ]

abbrev pub interrupted_at : ℕ → ActionExecution → ActionExecution
interrupted_at now e = record e {
  status = failed;
  error_code = some dispatch_interrupted;
  completed_at = some now;
}

-- A write that was interrupted needs a person; its payload is the request's.
unfoldable pub require_if :
    World → Effect → UnknownReason → ℕ → ℕ → String → Option ℕ → ℕ → Ledger → Ledger
require_if w writes why id run_id action (some p) now l =
    require
      (record {
        request_id = id;
        run_id = run_id;
        action = action;
        payload_digest = w.digest p;
        reason = why;
      })
      now l
require_if w writes why id run_id action none now l = l
require_if w reads why id run_id action p now l = l

-- The source reads the clock again here; `now` is that reading, taken to be the call's.
unfoldable pub interrupt : World → Effect → ActionRequest → ℕ → ℕ → Ledger → Ledger
interrupt w x q run_id now l =
    if is_open q.id l
    then require_if w x was_interrupted q.id run_id q.action q.parameters now
        (close q.id (interrupted_at now) l)
    else l

abbrev pub failed_row : ℕ → ℕ → FailureCode → ℕ → ActionExecution
failed_row id run_id code now = record {
  request_id = id;
  run_id = run_id;
  connection_id = none;
  status = failed;
  result = none;
  error_code = some code;
  started_at = now;
  completed_at = some now;
}

abbrev pub started_row : ℕ → ℕ → ℕ → ℕ → ActionExecution
started_row id run_id connection_id now = record {
  request_id = id;
  run_id = run_id;
  connection_id = some connection_id;
  status = dispatching;
  result = none;
  error_code = none;
  started_at = now;
  completed_at = none;
}

-- A refusal is recorded, so that the request can never be tried again.
unfoldable pub refuse : FailureCode → ActionRequest → ℕ → ℕ → Ledger → Plan × Ledger
refuse code q run_id now l = (
  finished (record { request_id = q.id; succeeded = false; result = none; error = some code }),
  record l { executions = failed_row q.id run_id code now ∷ l.executions },
)
