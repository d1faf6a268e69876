-- ===== src/Gateway/Assess.antt =====
-- apps/control-plane-api/src/actions/action-gateway.ts, `assess`: what a request may do now. A check that
-- fails is a denial, an error of `Result Denial`. Left out: `POLICY_UNAVAILABLE`, the denial where an
-- evaluation that is passed in throws (the one modelled here does not), and a database error while the
-- manifest is loaded, which the source throws again and which so rolls the whole call back.
use employee_agent_platform.Prelude.{
  ℕ, String, Bool, false, ◌&&◌, ◌||◌, not, Option, none, some, List, [], ◌∷◌, any, ◌==◌, str_eq,
  if◌then◌else◌,
}
use employee_agent_platform.Prelude.Result.{Result, ok, err, ◌>>=◌, ◌>>◌, throw_if}
use employee_agent_platform.Policy.{
  Resource, ActionPolicyContext, ActionPolicyDecision, evaluate_action_policy,
}
use employee_agent_platform.Gateway.{Ledger, RunRow, find_by, FilePath, ChangeSet}
use employee_agent_platform.Gateway.Registry.{
  Handler, control_plane_action, connector_provider, required_capability, includes,
  handler_in_scope, change_set_directory, ExecutionAction, execution_action, allows_operation,
  operation_in_scope,
}
use employee_agent_platform.Gateway.Changes.{Changes, empty, too_large, files, change_set}
use employee_agent_platform.Gateway.World.{
  Assessment, Capability, Connection, ConnectorGrant, Denial, Manifest, Prepared, Question, Tool,
  World, action_not_governed_by_tool, action_not_in_manifest, blueprint_digest_mismatch,
  blueprint_unavailable, by_policy, change_set_empty, change_set_too_large,
  connector_capability_missing, denial, input_digest_mismatch, manifest_invalid, no_connector,
  operation_not_allowed, parameters_invalid, parameters_missing, tool_not_in_manifest,
  tool_version_mismatch,
}

abbrev pub or_deny : {A : Type 0} → Denial → Option A → Result Denial A
or_deny d none = err d
or_deny d (some a) = ok a

abbrev pub same_digest : Option ℕ → ℕ → Bool
same_digest none d = false
same_digest (some e) d = d == e

abbrev pub version_differs : Option ℕ → ℕ → Bool
version_differs none v = false
version_differs (some u) v = not (v == u)

abbrev pub find_capability : String → List Capability → Option Capability
find_capability action [] = none
find_capability action (c ∷ l) = if str_eq c.action action then some c else find_capability action l

-- The manifest of the run, its tool and the capability for the action.
pub record Authority : Type 0 where
  pub manifest : Manifest
  pub tool : Tool
  pub capability : Capability

unfoldable pub authority_of : World → RunRow → Question → Result Denial Authority
authority_of w run q = do
  m ← or_deny manifest_invalid w.manifest
  throw_if (not (m.is_v2 && m.manifest_id == run.manifest_id)) manifest_invalid
  throw_if (not (any (λ t. t == q.tool_id) m.tools)) tool_not_in_manifest
  b ← or_deny blueprint_unavailable w.bundle
  throw_if (not (same_digest m.blueprint_digest b.digest)) blueprint_digest_mismatch
  t ← or_deny tool_version_mismatch (find_by (λ (t : Tool). t.id) q.tool_id b.tools)
  throw_if (version_differs q.tool_version t.version) tool_version_mismatch
  throw_if (not (includes q.action t.governed_actions)) action_not_governed_by_tool
  c ← or_deny action_not_in_manifest (find_capability q.action m.capabilities)
  ok (record { manifest = m; tool = t; capability = c })

-- What a request would act on.
pub record Target : Type 0 where
  pub handler : Option Handler
  pub parameters : Option ℕ
  pub connection : Option Connection
  pub resource : Option Resource
  pub changes : Option ChangeSet
  pub execution : Option Prepared

abbrev pub no_target : Target
no_target = record {
  handler = none;
  parameters = none;
  connection = none;
  resource = none;
  changes = none;
  execution = none;
}

abbrev pub digest_differs : World → Option ℕ → ℕ → Bool
digest_differs w none p = false
digest_differs w (some d) p = not (w.digest p == d)

abbrev pub grants_capability : Handler → List ConnectorGrant → Bool
grants_capability h [] = false
grants_capability h (c ∷ l) =
    str_eq c.id (connector_provider h) && includes (required_capability h) c.capabilities
    || grants_capability h l

abbrev pub changes_of : World → Changes → Result Denial (Option ChangeSet)
changes_of w empty = err change_set_empty
changes_of w too_large = err change_set_too_large
changes_of w (files l) = ok (some (record { digest = w.digest_files l; files = l }))

unfoldable pub published :
    World → RunRow → Option FilePath → Ledger → Result Denial (Option ChangeSet)
published w run none l = ok none
published w run (some directory) l =
    changes_of w (change_set w.read_write run.state.thread_id directory l)

abbrev scoped : String × String → Bool → Option Resource
scoped r inside = some (record { type = r.0; id = r.1; in_scope = inside })

unfoldable pub handler_target :
    World → RunRow → Question → Authority → Handler → Ledger → Result Denial Target
handler_target w run q a h l = do
  p ← or_deny parameters_missing q.parameters
  v ← or_deny parameters_invalid (w.handler_parameters h p)
  throw_if (digest_differs w q.input_digest p) input_digest_mismatch
  c ← or_deny no_connector (w.connection (connector_provider h))
  throw_if (not (grants_capability h a.manifest.connectors)) connector_capability_missing
  s ← published w run (change_set_directory v) l
  ok (record {
    handler = some h;
    parameters = some p;
    connection = some c;
    resource = scoped (w.resource_of v) (handler_in_scope v c.settings w.configuration);
    changes = s;
    execution = none;
  })

unfoldable pub execution_target :
    World → Question → Authority → ExecutionAction → Result Denial Target
execution_target w q a x = do
  p ← or_deny parameters_missing q.parameters
  o ← or_deny parameters_invalid (w.operation p)
  throw_if (not (allows_operation x o)) operation_not_allowed
  throw_if (digest_differs w q.input_digest p) input_digest_mismatch
  ok (record {
    handler = none;
    parameters = some p;
    connection = none;
    resource = scoped (w.operation_resource o) (operation_in_scope x o w.configuration);
    changes = none;
    execution = some (record { action = x; operation = o; timeout_ms = a.tool.timeout_ms });
  })

unfoldable pub target_of : World → RunRow → Question → Authority → Ledger → Result Denial Target
target_of w run q a l = elim (control_plane_action q.action) [
  | some h ↦ handler_target w run q a h l
  | none ↦ elim (execution_action q.action) [
    | some x ↦ execution_target w q a x
    | none ↦ ok no_target
  ]
]

abbrev pub context_of : World → Question → Authority → Target → ActionPolicyContext
context_of w q a t = record {
  action = q.action;
  organization_id = w.organization_id;
  agent_id = w.agent_id;
  employee_id = w.employee_id;
  manifest_outcome = some a.capability.outcome;
  organization_outcome = w.override q.action;
  resource = t.resource;
}

abbrev pub judged : ActionPolicyDecision → Target → Assessment
judged p t = record {
  outcome = p.outcome;
  risk = p.risk;
  reason = by_policy p.reason;
  policy = some p;
  handler = t.handler;
  parameters = t.parameters;
  connection = t.connection;
  changes = t.changes;
  execution = t.execution;
}

unfoldable pub judge : World → RunRow → Question → Ledger → Result Denial Assessment
judge w run q l = do
  a ← authority_of w run q
  t ← target_of w run q a l
  ok (judged (evaluate_action_policy (context_of w q a t)) t)

abbrev pub or_denied : Result Denial Assessment → Assessment
or_denied (ok a) = a
or_denied (err d) = denial d

unfoldable pub assess : World → RunRow → Question → Ledger → Assessment
assess w run q l = or_denied (judge w run q l)
