-- ===== src/Transport.antt =====
-- apps/control-plane-api/src/runtime/runtime-transport-service.ts: the action requests of a runtime, for
-- one organization. `leases` are those of its runs; requests are parsed, and their hash is an argument.
-- A request identifier that another organization has taken (a conflict too) is left out.
pub mod Requests
mod Tests
use employee_agent_platform.Prelude.{
  ℕ, Bool, true, false, ◌&&◌, not, Option, none, some, List, any, ◌==◌, if◌then◌else◌,
}
use employee_agent_platform.Prelude.Result.{Result, ok, err, ◌>>=◌, ◌>>◌, throw_if}
use employee_agent_platform.Lifecycle.{AgentRunStatus, RunStepStatus, run_eq, step_eq}
use employee_agent_platform.Execution.{Stamp, find_step}
use employee_agent_platform.Gateway.{
  Ledger, RunRow, ActionRequest, Grant, GatewayError, find_by, find_request, find_run,
}
use employee_agent_platform.Gateway.World.{World}
use employee_agent_platform.Gateway.Decide.{
  Submission, Moment, RuntimeDecision, stored_decision, decide,
}
use employee_agent_platform.Gateway.Dispatch.{prepare_execution}
use employee_agent_platform.Gateway.Plan.{Plan}
use employee_agent_platform.Gateway.Grants.{Issue, issue_grant}

-- `organizations` is absent for a runtime that serves all of them.
pub record RuntimeIdentity : Type 0 where
  pub id : ℕ
  pub organizations : Option (List ℕ)

pub record Lease : Type 0 where
  pub run_id : ℕ
  pub runtime_id : ℕ
  pub is_active : Bool

pub record Correlation : Type 0 where
  pub organization_id : ℕ
  pub thread_id : ℕ
  pub employee_id : ℕ
  pub agent_id : ℕ
  pub run_id : ℕ

-- An organization: its identifier, the leases of its runs and the gateway's rows.
pub record Tenant : Type 0 where
  pub organization_id : ℕ
  pub leases : List Lease
  pub ledger : Ledger

pub data TransportError : Type 0 where
  runtime_lease_required run_ended no_run run_is_not_running : TransportError
  correlation_differs no_step step_is_not_running runtime_action_conflict : TransportError
  gateway : GatewayError → TransportError

abbrev pub serves_organization : Option (List ℕ) → ℕ → Bool
serves_organization none organization_id = true
serves_organization (some l) organization_id = any (λ o. o == organization_id) l

abbrev pub or_throw : {A : Type 0} → TransportError → Option A → Result TransportError A
or_throw e none = err e
or_throw e (some a) = ok a

abbrev pub of_gateway : {A : Type 0} → Result GatewayError A → Result TransportError A
of_gateway (ok a) = ok a
of_gateway (err e) = err (gateway e)

unfoldable pub owned_lease : RuntimeIdentity → ℕ → Tenant → Result TransportError Lease
owned_lease rt run_id t = do
  lease ← or_throw runtime_lease_required (find_by (λ (x : Lease). x.run_id) run_id t.leases)
  throw_if
      (not (lease.runtime_id == rt.id && serves_organization rt.organizations t.organization_id))
      runtime_lease_required
  ok lease

abbrev pub correlates : Correlation → RunRow → ℕ → Bool
correlates c run organization_id =
    run.state.thread_id == c.thread_id
    && (run.state.employee_id == c.employee_id
        && (run.state.agent_id == c.agent_id && c.organization_id == organization_id))

-- The run of a lease exists.
unfoldable pub running_run : RuntimeIdentity → Correlation → Tenant → Result TransportError RunRow
running_run rt c t = do
  lease ← owned_lease rt c.run_id t
  throw_if (not lease.is_active) run_ended
  run ← or_throw no_run (find_run c.run_id t.ledger)
  throw_if (not (correlates c run t.organization_id)) correlation_differs
  throw_if (not (run_eq run.state.status AgentRunStatus.running)) run_is_not_running
  ok run

-- The lease that is read again here is the one that `running_run` has read.
unfoldable pub running_step :
    RuntimeIdentity → Correlation → ℕ → Tenant → Result TransportError RunRow
running_step rt c step_id t = do
  run ← running_run rt c t
  step ← or_throw no_step (find_step step_id run.state.steps)
  throw_if (not (step_eq step.status RunStepStatus.running)) step_is_not_running
  ok run

-- A request that is recorded is told again, if it is the same one.
unfoldable pub repeated :
    ActionRequest → Submission → Tenant → Result TransportError (RuntimeDecision × Tenant)
repeated q s t =
    if not (q.request_hash == s.request_hash)
    then err runtime_action_conflict
    else ok (stored_decision q, t)

-- The row that has just been inserted is there.
unfoldable pub told : ℕ → Tenant → Result TransportError (RuntimeDecision × Tenant)
told request_id t = elim (find_request request_id t.ledger) [
  | none ↦ err (gateway GatewayError.row_missing)
  | some q ↦ ok (stored_decision q, t)
]

unfoldable pub first :
    World → RunRow → Submission → Moment → Tenant → Result TransportError (RuntimeDecision × Tenant)
first w run s m t =
    of_gateway (decide w run s m t.ledger) >>= λ l. told s.request_id (record t { ledger = l })

unfoldable pub decide_once :
    World
    → RuntimeIdentity
    → Correlation
    → Submission
    → Moment
    → Tenant
    → Result TransportError (RuntimeDecision × Tenant)
decide_once w rt c s m t = elim (find_request s.request_id t.ledger) [
  | some q ↦ repeated q s t
  | none ↦ running_step rt c s.step_id t >>= λ run. first w run s m t
]

unfoldable pub request_action :
    World
    → RuntimeIdentity
    → Correlation
    → Submission
    → Moment
    → Tenant
    → Result TransportError (RuntimeDecision × Tenant)
request_action w rt c s m t = owned_lease rt c.run_id t >>= λ _. decide_once w rt c s m t

-- The first transaction of `executeAction`.
unfoldable pub execute_action :
    World
    → RuntimeIdentity
    → Correlation
    → (request_id step_id stale : ℕ) → Stamp
    → Tenant
    → Result TransportError (Plan × Ledger)
execute_action w rt c request_id step_id stale s t = running_step rt c step_id t >>= λ run.
    of_gateway (prepare_execution w run request_id step_id stale s t.ledger)

-- `issueGrant`
unfoldable pub request_grant :
    World
    → RuntimeIdentity
    → Correlation
    → ℕ
    → Issue
    → Tenant
    → Result TransportError (Grant × Ledger)
request_grant w rt c request_id i t =
    running_step rt c i.step_id t >>= λ run. of_gateway (issue_grant w run request_id i t.ledger)
