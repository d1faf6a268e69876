-- ===== src/Policy.antt =====
-- packages/policy-engine/src/index.ts: the platform decision of each governed action, and Policy v2.
-- `Record<GovernedAction, PolicyDecision>` is a function, and `Object.hasOwn(decisions, action)` a
-- search of its keys, in the order in which the object lists them.
pub mod Keys
pub mod Outcomes
pub mod Conditions
mod Tests
use employee_agent_platform.Prelude.{
  ℕ, ◌*◌, String, Bool, true, false, not, ◌&&◌, Option, none, some, List, [], ◌∷◌, map, ltb,
  is_some, if◌then◌else◌, str_eq,
}

pub data GovernedAction : Type 0 where
  repository_read repository_write workspace_command : GovernedAction
  workspace_dependencies_install jira_read qa_plan : GovernedAction
  qa_execute_playwright jira_issue_create : GovernedAction
  repository_pull_request_create production_deploy : GovernedAction

pub data Outcome : Type 0 where
  allow require_approval deny : Outcome

pub data Risk : Type 0 where
  low medium high critical : Risk

pub record PolicyDecision : Type 0 where
  pub outcome : Outcome
  pub risk : Risk
  pub reason : String

-- The text of each action, a key of `decisions`.
unfoldable pub key : GovernedAction → String
key repository_read = "repository.read"
key repository_write = "repository.write"
key workspace_command = "workspace.command"
key workspace_dependencies_install = "workspace.dependencies.install"
key jira_read = "jira.read"
key qa_plan = "qa.plan"
key qa_execute_playwright = "qa.execute_playwright"
key jira_issue_create = "jira.issue.create"
key repository_pull_request_create = "repository.pull_request.create"
key production_deploy = "production.deploy"

unfoldable pub decisions : GovernedAction → PolicyDecision
decisions repository_read = record {
  outcome = allow;
  risk = low;
  reason = "Read-only repository context is allowed for assigned projects.";
}
decisions repository_write = record {
  outcome = allow;
  risk = low;
  reason = "Writing inside the agent's private workspace changes nothing outside it.";
}
decisions workspace_dependencies_install = record {
  outcome = allow;
  risk = medium;
  reason =
      "Locked dependencies are installed in the sandbox from the configured registry only, with install scripts disabled.";
}
decisions workspace_command = record {
  outcome = allow;
  risk = medium;
  reason =
      "Allow-listed project scripts run inside the sandboxed workspace without network access.";
}
decisions jira_read = record {
  outcome = allow;
  risk = low;
  reason = "Read-only work-item context is allowed for assigned projects.";
}
decisions qa_plan = record {
  outcome = allow;
  risk = low;
  reason = "Generating a test plan does not mutate an external system.";
}
decisions qa_execute_playwright = record {
  outcome = require_approval;
  risk = medium;
  reason = "Browser execution can affect a target environment and must be approved.";
}
decisions jira_issue_create = record {
  outcome = require_approval;
  risk = medium;
  reason = "Creating a Jira issue is an external write.";
}
decisions repository_pull_request_create = record {
  outcome = require_approval;
  risk = high;
  reason = "Publishing repository changes requires human approval.";
}
decisions production_deploy = record {
  outcome = deny;
  risk = critical;
  reason = "Employee agents cannot deploy to production.";
}

-- The keys in the order of the object literal.
abbrev pub listed : List GovernedAction
listed =
    repository_read ∷ repository_write ∷ workspace_dependencies_install ∷ workspace_command
    ∷ jira_read ∷ qa_plan ∷ qa_execute_playwright ∷ jira_issue_create
    ∷ repository_pull_request_create ∷ production_deploy ∷ []

find_in : List GovernedAction → String → Option GovernedAction
find_in [] action = none
find_in (a ∷ rest) action = if str_eq (key a) action then some a else find_in rest action

-- The property of `decisions` that `action` names, if it has one.
unfoldable pub own : String → Option GovernedAction
unfolding find_in key
own action = find_in listed action

abbrev unknown_action : PolicyDecision
unknown_action = record { outcome = deny; risk = critical; reason = "Unknown actions are denied." }

unfoldable pub evaluate_policy : String → PolicyDecision
evaluate_policy action = elim (own action) [ none ↦ unknown_action | some a ↦ decisions a ]

unfoldable pub is_known_action : String → Bool
is_known_action action = is_some (own action)

unfoldable pub known_actions : List String
known_actions = map key listed

abbrev pub policy_id : String
policy_id = "agents-foundry.foundation"

abbrev pub policy_version : String
policy_version = "foundation-v2"

abbrev pub rank : Outcome → ℕ
rank allow = 0
rank require_approval = 1
rank deny = 2

abbrev pub approval_ttl_seconds : Risk → ℕ
approval_ttl_seconds low = 24 * 3600
approval_ttl_seconds medium = 24 * 3600
approval_ttl_seconds high = 8 * 3600
approval_ttl_seconds critical = 3600

pub data PolicyCondition : Type 0 where
  ttl_seconds : ℕ → PolicyCondition
  bind_to_input_digest : PolicyCondition

pub record Resource : Type 0 where
  pub type : String
  pub id : String
  pub in_scope : Bool

-- The organization's override: `'REQUIRE_APPROVAL' | 'DENY'`.
pub data Override : Type 0 where
  to_approval to_deny : Override

abbrev pub of_override : Override → Outcome
of_override to_approval = require_approval
of_override to_deny = deny

pub record ActionPolicyContext : Type 0 where
  pub action : String
  pub organization_id : String
  pub agent_id : String
  pub employee_id : String
  pub manifest_outcome : Option Outcome
  pub organization_outcome : Option Override
  pub resource : Option Resource

pub record ActionPolicyDecision : Type 0 where
  pub outcome : Outcome
  pub risk : Risk
  pub reason : String
  pub policy_id : String
  pub policy_version : String
  pub conditions : List PolicyCondition

abbrev conditions_of : Outcome → Risk → List PolicyCondition
conditions_of require_approval risk =
    ttl_seconds (approval_ttl_seconds risk) ∷ bind_to_input_digest ∷ []
conditions_of allow risk = []
conditions_of deny risk = []

abbrev decide : Outcome → Risk → String → ActionPolicyDecision
decide outcome risk reason = record {
  outcome = outcome;
  risk = risk;
  reason = reason;
  policy_id = policy_id;
  policy_version = policy_version;
  conditions = conditions_of outcome risk;
}

-- `context.resource && !context.resource.inScope`
abbrev pub out_of_scope : Option Resource → Bool
out_of_scope none = false
out_of_scope (some r) = not r.in_scope

-- The outcome and the reason in force before an input that may only tighten them.
abbrev by_manifest : Outcome → Outcome × String → Outcome × String
by_manifest m (outcome, reason) =
    if ltb (rank outcome) (rank m)
    then (m, "Restricted by the agent manifest.")
    else (outcome, reason)

abbrev by_organization : Option Override → Outcome × String → Outcome × String
by_organization none now = now
by_organization (some o) (outcome, reason) =
    if ltb (rank outcome) (rank (of_override o))
    then (of_override o, "Restricted by organization policy.")
    else (outcome, reason)

abbrev is_deny : Outcome → Bool
is_deny deny = true
is_deny allow = false
is_deny require_approval = false

abbrev restrict : PolicyDecision → Outcome → Option Override → ActionPolicyDecision
restrict base m o =
    let (outcome, reason) = by_organization o (by_manifest m (base.outcome, base.reason)) in
    decide outcome base.risk reason

-- What `evaluateActionPolicy` does once it has the platform's decision.
evaluate_from : PolicyDecision → ActionPolicyContext → ActionPolicyDecision
evaluate_from base c =
    if is_deny base.outcome then decide deny base.risk base.reason else elim c.manifest_outcome [
      | none ↦ decide deny critical "The agent manifest does not grant this action."
      | some m ↦
          if out_of_scope c.resource
          then decide deny base.risk "The target resource is outside the configured scope."
          else restrict base m c.organization_outcome
    ]

unfoldable pub evaluate_action_policy : ActionPolicyContext → ActionPolicyDecision
unfolding evaluate_from
evaluate_action_policy c = evaluate_from (evaluate_policy c.action) c
