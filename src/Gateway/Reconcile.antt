-- ===== src/Gateway/Reconcile.antt =====
-- apps/control-plane-api/src/actions/action-reconciliation.ts: writes whose outcome nobody knows.
use employee_agent_platform.Prelude.{
  ℕ, String, Bool, ◌&&◌, ◌||◌, Option, none, some, ◌∷◌, any, ◌==◌, str_eq, if◌then◌else◌, is_some,
  map,
}
use employee_agent_platform.Prelude.Result.{Result, ok, err}
use employee_agent_platform.Gateway.{
  Ledger, Reconciliation, ReconciliationState, required, applied, not_applied, UnknownReason,
  GatewayError, reconciliation_not_found, reconciliation_resolved, is_required, find_by, find_run,
}

-- One that is open for this thread, or for this payload anywhere in the organization.
abbrev pub holds_back : ℕ → String → ℕ → Reconciliation → Bool
holds_back thread_id action digest x =
    str_eq x.action action
    && (is_required x.state && (x.thread_id == thread_id || x.payload_digest == digest))

unfoldable pub blocks : ℕ → String → ℕ → Ledger → Bool
blocks thread_id action digest l = any (holds_back thread_id action digest) l.reconciliations

-- An execution whose outcome is unknown.
pub record Unknown : Type 0 where
  pub request_id : ℕ
  pub run_id : ℕ
  pub action : String
  pub payload_digest : ℕ
  pub reason : UnknownReason

abbrev pub find_reconciliation : ℕ → Ledger → Option Reconciliation
find_reconciliation id l = find_by (λ x. x.request_id) id l.reconciliations

abbrev pub new_reconciliation : Unknown → ℕ → ℕ → Reconciliation
new_reconciliation u thread_id now = record {
  request_id = u.request_id;
  thread_id = thread_id;
  run_id = u.run_id;
  action = u.action;
  payload_digest = u.payload_digest;
  reason = u.reason;
  state = required;
  created_at = now;
  resolved_by = none;
  resolved_at = none;
  note = none;
}

-- `ON CONFLICT (request_id) DO NOTHING`
unfoldable pub require_in : ℕ → Unknown → ℕ → Ledger → Ledger
require_in thread_id u now l =
    if is_some (find_reconciliation u.request_id l)
    then l
    else record l { reconciliations = new_reconciliation u thread_id now ∷ l.reconciliations }

unfoldable pub require : Unknown → ℕ → Ledger → Ledger
require u now l = elim (find_run u.run_id l) [
  | none ↦ l
  | some r ↦ require_in r.state.thread_id u now l
]

-- What an administrator says: the write is there, or it is not.
pub data Resolution : Type 0 where
  is_applied is_not_applied : Resolution

abbrev pub state_of : Resolution → ReconciliationState
state_of is_applied = applied
state_of is_not_applied = not_applied

pub record Verification : Type 0 where
  pub actor_id : ℕ
  pub resolution : Resolution
  pub note : Option ℕ
  pub now : ℕ

abbrev pub resolve_row : ℕ → Verification → Reconciliation → Reconciliation
resolve_row id v x =
    if x.request_id == id && is_required x.state
    then record x {
      state = state_of v.resolution;
      resolved_by = some v.actor_id;
      resolved_at = some v.now;
      note = v.note;
    }
    else x

-- For an administrator who is authorized.
unfoldable pub resolve : ℕ → Verification → Ledger → Result GatewayError Ledger
resolve id v l = elim (find_reconciliation id l) [
  | none ↦ err reconciliation_not_found
  | some x ↦
      if is_required x.state
      then ok (record l { reconciliations = map (resolve_row id v) l.reconciliations })
      else err reconciliation_resolved
]
