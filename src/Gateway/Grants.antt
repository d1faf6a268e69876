-- ===== src/Gateway/Grants.antt =====
-- apps/control-plane-api/src/actions/action-gateway.ts, `issueGrant`: one signed grant for an operation
-- of an execution runtime. A refusal is thrown, so nothing is recorded of it.
use employee_agent_platform.Prelude.{
  ℕ, ◌+◌, String, not, Option, none, some, ◌∷◌, ◌==◌, leb, ltb, min, max, if◌then◌else◌, is_some,
}
use employee_agent_platform.Prelude.Result.{Result, ok, err, ◌>>=◌, ◌>>◌, throw_if}
use employee_agent_platform.Execution.{Stamp}
use employee_agent_platform.Gateway.{
  Ledger, RunRow, ActionRequest, ApprovalRow, Decision, allowed, denied, approval_required,
  FailureCode, Grant, GatewayError, action_request_not_found, runtime_correlation_mismatch,
  action_not_grantable, grant_expired, parameters_required, refused, find_by,
}
use employee_agent_platform.Gateway.Registry.{
  execution_action, Operation, git_checkout, max_processes, hosts_of,
}
use employee_agent_platform.Gateway.Assess.{assess}
use employee_agent_platform.Gateway.World.{World, Prepared}
use employee_agent_platform.Gateway.Decide.{expire_due}
use employee_agent_platform.Gateway.Dispatch.{
  question_of, own_request, approval_row, against_decision, against_policy,
}

-- The grant's random identifier, and the credential lease of a checkout if the broker gives one.
pub record Issue : Type 0 where
  pub grant_id : ℕ
  pub step_id : ℕ
  pub stamp : Stamp
  pub lease_for : String → Option ℕ

-- Ten minutes.
abbrev pub grant_ttl_ms : ℕ
grant_ttl_ms = 600000

abbrev pub earlier : ℕ → Option ℕ → ℕ
earlier t none = t
earlier t (some u) = if ltb u t then u else t

abbrev pub approval_expiry : Option ApprovalRow → ℕ → ℕ
approval_expiry none t = t
approval_expiry (some a) t = earlier t a.expires_at

-- No later than the approval.
unfoldable pub grant_expiry : Decision → ActionRequest → ℕ → Ledger → ℕ
grant_expiry approval_required q now l =
    approval_expiry (approval_row q.approval_id l) (now + grant_ttl_ms)
grant_expiry allowed q now l = now + grant_ttl_ms
grant_expiry denied q now l = now + grant_ttl_ms

abbrev lease_of : (String → Option ℕ) → Operation → Option ℕ
lease_of lease_for o = elim o [ git_checkout url ↦ lease_for url | _ ↦ none ]

abbrev pub new_grant : World → ActionRequest → Prepared → ℕ → Issue → ℕ → Grant
new_grant w q x p i expires_at = record {
  grant_id = i.grant_id;
  request_id = q.id;
  run_id = q.run_id;
  operation_digest = w.digest p;
  timeout_ms = max 1000 (min x.timeout_ms 3600000);
  max_processes = max_processes x.action;
  hosts = hosts_of w.host_of x.operation;
  credential = lease_of i.lease_for x.operation;
  issued_at = i.stamp.now;
  expires_at = expires_at;
}

abbrev pub unless_refused : Option FailureCode → Result GatewayError (Unit {0})
unless_refused none = ok tt
unless_refused (some c) = err (refused c)

unfoldable pub granted :
    World
    → ActionRequest
    → Option Prepared
    → Option ℕ
    → Issue
    → Ledger
    → Result GatewayError (Grant × Ledger)
granted w q (some x) (some p) i l =
    let g = new_grant w q x p i (grant_expiry q.decision q i.stamp.now l) in
    ok (g, record l { grants = g ∷ l.grants })
granted w q (some x) none i l = err parameters_required
granted w q none p i l = err parameters_required

unfoldable pub new_or_refused :
    World → RunRow → ActionRequest → Issue → Ledger → Result GatewayError (Grant × Ledger)
new_or_refused w run q i l =
    let v = assess w run (question_of q) l in
    unless_refused (against_decision q.decision q i.stamp.now l)
    >> (unless_refused (against_policy v.outcome q.decision)
        >> granted w q v.execution v.parameters i l)

abbrev pub find_grant : ℕ → Ledger → Option Grant
find_grant id l = find_by (λ g. g.request_id) id l.grants

-- A grant that exists is delivered again until it expires.
unfoldable pub redeliver : Grant → ℕ → Ledger → Result GatewayError (Grant × Ledger)
redeliver g now l = if leb g.expires_at now then err grant_expired else ok (g, l)

unfoldable pub deliver :
    World → RunRow → ActionRequest → Issue → Ledger → Result GatewayError (Grant × Ledger)
deliver w run q i l = elim (find_grant q.id l) [
  | some g ↦ redeliver g i.stamp.now l
  | none ↦ new_or_refused w run q i l
]

unfoldable pub issue_for :
    World → RunRow → Option ActionRequest → Issue → Ledger → Result GatewayError (Grant × Ledger)
issue_for w run none i l = err action_request_not_found
issue_for w run (some q) i l = do
  throw_if (not (q.step_id == i.step_id)) runtime_correlation_mismatch
  throw_if (not (is_some (execution_action q.action))) action_not_grantable
  deliver w run q i l

unfoldable pub issue_grant :
    World → RunRow → ℕ → Issue → Ledger → Result GatewayError (Grant × Ledger)
issue_grant w run request_id i l =
    expire_due i.stamp l >>= λ l'. issue_for w run (own_request run request_id l') i l'
