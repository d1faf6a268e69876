-- ===== src/Gateway/Dispatch.antt =====
-- apps/control-plane-api/src/actions/action-gateway.ts, `prepareExecution`: whether a request may be
-- dispatched now.
use employee_agent_platform.Prelude.{
  ℕ, ◌+◌, Bool, true, false, ◌&&◌, ◌||◌, not, Option, none, some, ◌∷◌, ◌==◌, ltb, if◌then◌else◌,
}
use employee_agent_platform.Prelude.Result.{Result, ok, err, ◌>>=◌}
use employee_agent_platform.Policy.{Outcome, allow, require_approval, deny}
use employee_agent_platform.Execution.{ApprovalStatus, Stamp}
use employee_agent_platform.Gateway.{
  Ledger, RunRow, ActionRequest, ApprovalRow, ActionExecution, Decision, allowed, denied,
  approval_required, FailureCode, action_denied, approval_expired, approval_not_granted,
  policy_denied, needs_approval, connector_not_configured, change_set_changed,
  reconciliation_required, secret_unresolved, GatewayError, action_request_not_found,
  runtime_correlation_mismatch, action_not_executable, action_execution_in_progress, row_missing,
  is_dispatching, find_by, find_request, find_execution, ChangeSet,
}
use employee_agent_platform.Gateway.Registry.{Handler, control_plane_action, effect, is_write}
use employee_agent_platform.Gateway.Reconcile.{blocks}
use employee_agent_platform.Gateway.Assess.{assess}
use employee_agent_platform.Gateway.World.{World, Question, Assessment, Connection}
use employee_agent_platform.Gateway.Decide.{past, expire_due}
use employee_agent_platform.Gateway.Plan.{
  Plan, finished, interrupt, refuse, started_row, stored_execution, to_dispatch,
}

abbrev is_expired : ApprovalStatus → Bool
is_expired ApprovalStatus.expired = true
is_expired ApprovalStatus.approved = false
is_expired ApprovalStatus.rejected = false
is_expired ApprovalStatus.pending = false

abbrev pub is_approved : ApprovalStatus → Bool
is_approved ApprovalStatus.approved = true
is_approved ApprovalStatus.expired = false
is_approved ApprovalStatus.rejected = false
is_approved ApprovalStatus.pending = false

-- What the approval of a request says against it.
abbrev pub against_approval : ℕ → Option ApprovalRow → Option FailureCode
against_approval now none = some approval_not_granted
against_approval now (some a) =
    if is_expired a.status || past now a.expires_at
    then some approval_expired
    else if is_approved a.status
    then none
    else some approval_not_granted

abbrev pub approval_row : Option ℕ → Ledger → Option ApprovalRow
approval_row none l = none
approval_row (some id) l = find_by (λ a. a.id) id l.approvals

unfoldable pub against_decision : Decision → ActionRequest → ℕ → Ledger → Option FailureCode
against_decision allowed q now l = none
against_decision denied q now l = some action_denied
against_decision approval_required q now l = against_approval now (approval_row q.approval_id l)

-- What the current policy says against it.
unfoldable pub against_policy : Outcome → Decision → Option FailureCode
against_policy deny d = some policy_denied
against_policy require_approval allowed = some needs_approval
against_policy require_approval approval_required = none
against_policy require_approval denied = none
against_policy allow d = none

abbrev pub digest_of : Option ChangeSet → Option ℕ
digest_of none = none
digest_of (some c) = some c.digest

abbrev pub option_eq : Option ℕ → Option ℕ → Bool
option_eq none none = true
option_eq none (some y) = false
option_eq (some x) none = false
option_eq (some x) (some y) = x == y

abbrev pub question_of : ActionRequest → Question
question_of q = record {
  action = q.action;
  tool_id = q.tool_id;
  tool_version = none;
  parameters = q.parameters;
  input_digest = none;
}

-- The last checks before the secret is resolved and the dispatch is committed to.
unfoldable pub commit :
    World
    → RunRow
    → ActionRequest
    → Handler
    → Assessment
    → Connection
    → ℕ
    → ℕ
    → Ledger
    → Plan × Ledger
commit w run q h v c p now l =
    if not (option_eq (digest_of q.change_set) (digest_of v.changes))
    then refuse change_set_changed q run.id now l
    else if is_write (effect h) && blocks run.state.thread_id q.action (w.digest p) l
    then refuse reconciliation_required q run.id now l
    else if not (w.has_secret c.secret_ref)
    then refuse secret_unresolved q run.id now l
    else (
      to_dispatch (record {
        request_id = q.id;
        run_id = run.id;
        handler = h;
        action = q.action;
        parameters = p;
        connection = c;
        change_set = q.change_set;
        payload_digest = w.digest p;
      }),
      record l { executions = started_row q.id run.id c.id now ∷ l.executions },
    )

unfoldable pub connect :
    World
    → RunRow
    → ActionRequest
    → Handler
    → Assessment
    → Option Connection
    → Option ℕ
    → ℕ
    → Ledger
    → Plan × Ledger
connect w run q h v (some c) (some p) now l = commit w run q h v c p now l
connect w run q h v (some c) none now l = refuse connector_not_configured q run.id now l
connect w run q h v none p now l = refuse connector_not_configured q run.id now l

unfoldable pub refuse_or :
    Option FailureCode → ActionRequest → RunRow → ℕ → Ledger → Plan × Ledger → Plan × Ledger
refuse_or none q run now l next = next
refuse_or (some code) q run now l next = refuse code q run.id now l

-- Nothing is recorded of the request yet: it is authorized again.
unfoldable pub start : World → RunRow → ActionRequest → Handler → ℕ → Ledger → Plan × Ledger
start w run q h now l =
    let v = assess w run (question_of q) l in
    refuse_or (against_decision q.decision q now l) q run now l (
      refuse_or (against_policy v.outcome q.decision) q run now l
        (connect w run q h v v.connection v.parameters now l))

abbrev pub stored : ℕ → Ledger → Result GatewayError (Plan × Ledger)
stored id l = elim (find_execution id l) [
  | none ↦ err row_missing
  | some e ↦ ok (finished (stored_execution e), l)
]

-- An execution that is recorded stands; one that has been dispatching for too long is closed.
unfoldable pub resume :
    World
    → RunRow
    → ActionRequest
    → Handler
    → ActionExecution
    → (stale now : ℕ) → Ledger
    → Result GatewayError (Plan × Ledger)
resume w run q h e stale now l =
    if not (is_dispatching e.status)
    then ok (finished (stored_execution e), l)
    else if ltb now (e.started_at + stale)
    then err action_execution_in_progress
    else stored q.id (interrupt w (effect h) q run.id now l)

unfoldable pub start_or_resume :
    World
    → RunRow
    → ActionRequest
    → Handler
    → (stale now : ℕ) → Ledger
    → Result GatewayError (Plan × Ledger)
start_or_resume w run q h stale now l = elim (find_execution q.id l) [
  | some e ↦ resume w run q h e stale now l
  | none ↦ ok (start w run q h now l)
]

unfoldable pub with_handler :
    World
    → RunRow
    → ActionRequest
    → Option Handler
    → (stale now : ℕ) → Ledger
    → Result GatewayError (Plan × Ledger)
with_handler w run q none stale now l = err action_not_executable
with_handler w run q (some h) stale now l = start_or_resume w run q h stale now l

-- The request of this run.
abbrev pub own_request : RunRow → ℕ → Ledger → Option ActionRequest
own_request run id l = elim (find_request id l) [
  | none ↦ none
  | some q ↦ if q.run_id == run.id then some q else none
]

unfoldable pub for_step :
    World
    → RunRow
    → Option ActionRequest
    → (step_id stale now : ℕ) → Ledger
    → Result GatewayError (Plan × Ledger)
for_step w run none step_id stale now l = err action_request_not_found
for_step w run (some q) step_id stale now l =
    if not (q.step_id == step_id)
    then err runtime_correlation_mismatch
    else with_handler w run q (control_plane_action q.action) stale now l

unfoldable pub prepare_execution :
    World
    → RunRow
    → (request_id step_id stale : ℕ) → Stamp
    → Ledger
    → Result GatewayError (Plan × Ledger)
prepare_execution w run request_id step_id stale s l =
    expire_due s l >>= λ l'. for_step w run (own_request run request_id l') step_id stale s.now l'
