-- ===== src/Gateway.antt =====
-- apps/control-plane-api/src/actions: the rows of one organization that the Action Gateway reads and
-- writes. A payload is a number that stands for its canonical text; what parses it is in `World`.
-- A request's identifier is the runtime's, the other new identifiers are arguments. `requests` and
-- `approvals` are in the order in which they were inserted, which is the order of `seq`.
-- Left out: audit events, telemetry, summaries, and the resource of an approval.
pub mod Lifetimes
pub mod Started
pub mod Committed
pub mod Plan
pub mod World
pub mod Assess
pub mod Authorized
pub mod Awaited
pub mod Books
pub mod Calls
pub mod Changes
pub mod Closing
pub mod Complete
pub mod Decide
pub mod Delivered
pub mod Dispatch
pub mod Executions
pub mod Expired
pub mod Governed
pub mod Grants
pub mod Reconcile
pub mod Recorded
pub mod Rows
pub mod Sample
pub mod System
pub mod Registry
pub mod Targets
mod Tests
pub mod Unknowns
pub mod Work
pub mod Written
use employee_agent_platform.Prelude.{
  ℕ, ◌+◌, String, Bool, true, false, ◌&&◌, Option, none, some, List, [], ◌∷◌, ◌==◌, leb,
  if◌then◌else◌, map,
}
use employee_agent_platform.Prelude.Result.{Result, ok, err}
use employee_agent_platform.Execution.{Run, Step, ExecutionError, Approval, ApprovalStatus}
use employee_agent_platform.Policy.{Risk}

pub data Decision : Type 0 where
  allowed denied approval_required : Decision

pub data ExecutionStatus : Type 0 where
  dispatching succeeded failed : ExecutionStatus

-- The code of an execution that failed. `connector n` is a code of the connector's own.
pub data FailureCode : Type 0 where
  action_denied approval_expired approval_not_granted policy_denied needs_approval : FailureCode
  connector_not_configured change_set_changed reconciliation_required secret_unresolved :
      FailureCode
  dispatch_interrupted outcome_unknown request_failed connector_failed action_failed : FailureCode
  connector : ℕ → FailureCode

pub data ReconciliationState : Type 0 where
  required applied not_applied : ReconciliationState

pub data UnknownReason : Type 0 where
  connector_outcome_unknown was_interrupted : UnknownReason

-- A path is the list of its codes.
abbrev pub FilePath : Type 0
FilePath = List ℕ

pub record ChangedFile : Type 0 where
  pub path : FilePath
  pub content : ℕ
  pub bytes : ℕ

pub record ChangeSet : Type 0 where
  pub digest : ℕ
  pub files : List ChangedFile

pub record ActionRequest : Type 0 where
  pub id : ℕ
  pub run_id : ℕ
  pub step_id : ℕ
  pub action : String
  pub tool_id : ℕ
  pub decision : Decision
  pub risk : Risk
  pub approval_id : Option ℕ
  pub parameters : Option ℕ
  pub change_set : Option ChangeSet
  pub request_hash : ℕ
  pub created_at : ℕ

pub record ApprovalRow : Type 0 where
  pub id : ℕ
  pub run_id : ℕ
  pub step_id : ℕ
  pub status : ApprovalStatus
  pub expires_at : Option ℕ

pub record ActionExecution : Type 0 where
  pub request_id : ℕ
  pub run_id : ℕ
  pub connection_id : Option ℕ
  pub status : ExecutionStatus
  pub result : Option ℕ
  pub error_code : Option FailureCode
  pub started_at : ℕ
  pub completed_at : Option ℕ

pub record Reconciliation : Type 0 where
  pub request_id : ℕ
  pub thread_id : ℕ
  pub run_id : ℕ
  pub action : String
  pub payload_digest : ℕ
  pub reason : UnknownReason
  pub state : ReconciliationState
  pub created_at : ℕ
  pub resolved_by : Option ℕ
  pub resolved_at : Option ℕ
  pub note : Option ℕ

pub record Grant : Type 0 where
  pub grant_id : ℕ
  pub request_id : ℕ
  pub run_id : ℕ
  pub operation_digest : ℕ
  pub timeout_ms : ℕ
  pub max_processes : ℕ
  pub hosts : List String
  pub credential : Option ℕ
  pub issued_at : ℕ
  pub expires_at : ℕ

-- A run's row, with what Execution models of it. The approvals that are linked to it are those of the
-- organization, so the run's own list is written over before it is read.
pub record RunRow : Type 0 where
  pub id : ℕ
  pub manifest_id : ℕ
  pub state : Run

pub record Ledger : Type 0 where
  pub runs : List RunRow
  pub requests : List ActionRequest
  pub approvals : List ApprovalRow
  pub executions : List ActionExecution
  pub reconciliations : List Reconciliation
  pub grants : List Grant

pub data GatewayError : Type 0 where
  run_not_found action_request_not_found runtime_correlation_mismatch : GatewayError
  action_not_executable action_execution_in_progress row_missing : GatewayError
  reconciliation_not_found reconciliation_resolved : GatewayError
  action_not_grantable grant_expired parameters_required : GatewayError
  refused : FailureCode → GatewayError
  execution : ExecutionError → GatewayError

abbrev pub is_dispatching : ExecutionStatus → Bool
is_dispatching ExecutionStatus.dispatching = true
is_dispatching ExecutionStatus.succeeded = false
is_dispatching ExecutionStatus.failed = false

abbrev pub is_required : ReconciliationState → Bool
is_required required = true
is_required applied = false
is_required not_applied = false

-- The first row with a key.
unfoldable pub find_by : {A : Type 0} → (A → ℕ) → ℕ → List A → Option A
find_by key id [] = none
find_by key id (x ∷ l) = if key x == id then some x else find_by key id l

abbrev pub find_request : ℕ → Ledger → Option ActionRequest
find_request id l = find_by (λ q. q.id) id l.requests

abbrev pub find_execution : ℕ → Ledger → Option ActionExecution
find_execution id l = find_by (λ e. e.request_id) id l.executions

abbrev pub find_run : ℕ → Ledger → Option RunRow
find_run id l = find_by (λ r. r.id) id l.runs

-- `ORDER BY key`, stable.
unfoldable pub insert_by : {A : Type 0} → (A → ℕ) → A → List A → List A
insert_by key x [] = x ∷ []
insert_by key x (y ∷ l) = if leb (key x) (key y) then x ∷ y ∷ l else y ∷ insert_by key x l

unfoldable pub sort_by : {A : Type 0} → (A → ℕ) → List A → List A
sort_by key [] = []
sort_by key (x ∷ l) = insert_by key x (sort_by key l)

-- The approvals that are linked to a run, as Execution reads them.
abbrev links_of : ℕ → List ApprovalRow → List Approval
links_of run_id [] = []
links_of run_id (a ∷ l) =
    if a.run_id == run_id
    then record { id = a.id; step_id = some a.step_id; status = a.status } ∷ links_of run_id l
    else links_of run_id l

abbrev pub linked : List ApprovalRow → RunRow → Run
linked approvals r = record r.state { approvals = links_of r.id approvals }

abbrev set_run : ℕ → Run → List RunRow → List RunRow
set_run id s [] = []
set_run id s (r ∷ l) = if r.id == id then record r { state = s } ∷ l else r ∷ set_run id s l

abbrev store_run : ℕ → Result ExecutionError Run → Ledger → Result GatewayError Ledger
store_run id (ok s) l = ok (record l { runs = set_run id s l.runs })
store_run id (err e) l = err (execution e)

-- A method of the execution service on one run.
unfoldable pub on_run : ℕ → (Run → Result ExecutionError Run) → Ledger → Result GatewayError Ledger
on_run id f l = elim (find_run id l) [
  | none ↦ err run_not_found
  | some r ↦ store_run id (f (linked l.approvals r)) l
]
