-- ===== src/Gateway/World.antt =====
-- apps/control-plane-api/src/actions/action-gateway.ts: what the gateway is told by other services, by
-- the signed manifest and by parsers, and what an assessment says.
use employee_agent_platform.Prelude.{ℕ, String, Bool, Option, none, List}
use employee_agent_platform.Policy.{Outcome, deny, Risk, critical, Override, ActionPolicyDecision}
use employee_agent_platform.Gateway.{ChangedFile, ChangeSet}
use employee_agent_platform.Gateway.Registry.{
  Handler, Parameters, Settings, Configuration, ExecutionAction, Operation,
}
use employee_agent_platform.Gateway.Changes.{ReadWrite}

pub data Denial : Type 0 where
  manifest_invalid tool_not_in_manifest blueprint_unavailable blueprint_digest_mismatch : Denial
  tool_version_mismatch action_not_governed_by_tool action_not_in_manifest : Denial
  parameters_missing parameters_invalid input_digest_mismatch : Denial
  no_connector connector_capability_missing change_set_empty change_set_too_large : Denial
  operation_not_allowed action_reconciliation_required : Denial

pub record Capability : Type 0 where
  pub action : String
  pub outcome : Outcome

pub record ConnectorGrant : Type 0 where
  pub id : String
  pub capabilities : List String

pub record Manifest : Type 0 where
  pub is_v2 : Bool
  pub manifest_id : ℕ
  pub tools : List ℕ
  pub blueprint_digest : Option ℕ
  pub capabilities : List Capability
  pub connectors : List ConnectorGrant

pub record Tool : Type 0 where
  pub id : ℕ
  pub version : ℕ
  pub governed_actions : List String
  pub timeout_ms : ℕ

pub record Bundle : Type 0 where
  pub digest : ℕ
  pub tools : List Tool

pub record Connection : Type 0 where
  pub id : ℕ
  pub settings : Settings
  pub secret_ref : ℕ

-- What other services, the signed manifest and parsers say at the time of a call. `manifest` is absent
-- where it cannot be loaded, `bundle` where the blueprint is unavailable. `has_secret` is whether the
-- secret resolves; it is false where the source catches `SecretUnavailable`, and any other exception of
-- the secret's store, which the source throws again, is left out.
pub record World : Type 0 where
  pub organization_id : String
  pub agent_id : String
  pub employee_id : String
  pub manifest : Option Manifest
  pub bundle : Option Bundle
  pub configuration : Configuration
  pub digest : ℕ → ℕ
  pub digest_files : List ChangedFile → ℕ
  pub handler_parameters : Handler → ℕ → Option Parameters
  pub resource_of : Parameters → String × String
  pub operation : ℕ → Option Operation
  pub operation_resource : Operation → String × String
  pub read_write : ReadWrite
  pub connection : String → Option Connection
  pub override : String → Option Override
  pub has_secret : ℕ → Bool
  pub host_of : String → List String

pub record Question : Type 0 where
  pub action : String
  pub tool_id : ℕ
  pub tool_version : Option ℕ
  pub parameters : Option ℕ
  pub input_digest : Option ℕ

pub record Prepared : Type 0 where
  pub action : ExecutionAction
  pub operation : Operation
  pub timeout_ms : ℕ

pub data Reason : Type 0 where
  denied_for : Denial → Reason
  by_policy : String → Reason

pub record Assessment : Type 0 where
  pub outcome : Outcome
  pub risk : Risk
  pub reason : Reason
  pub policy : Option ActionPolicyDecision
  pub handler : Option Handler
  pub parameters : Option ℕ
  pub connection : Option Connection
  pub changes : Option ChangeSet
  pub execution : Option Prepared

abbrev pub denial : Denial → Assessment
denial d = record {
  outcome = deny;
  risk = critical;
  reason = denied_for d;
  policy = none;
  handler = none;
  parameters = none;
  connection = none;
  changes = none;
  execution = none;
}
