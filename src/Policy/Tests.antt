-- ===== src/Policy/Tests.antt =====
-- packages/policy-engine/src/index.ts: decisions at concrete contexts.
use employee_agent_platform.Prelude.{◌≤◌, ◌≡◌, refl, ◌↔◌, false, true, none, some, arith}
use employee_agent_platform.Policy.{
  allow, require_approval, ActionPolicyContext, Override, out_of_scope, rank, evaluate_policy,
  evaluate_action_policy, own, decisions,
}
use employee_agent_platform.Policy.Keys.{Verdict, evaluate_policy_cases}
use employee_agent_platform.Policy.Outcomes.{
  rank_manifest, rank_override, evaluate_action_policy_tightens, evaluate_action_policy_allow_iff,
  evaluate_action_policy_least,
}
use employee_agent_platform.Policy.Conditions.{Conditioned, evaluate_action_policy_conditions}

-- A Jira read that the organization has put under approval.
abbrev jira_context : ActionPolicyContext
jira_context = record {
  action = "jira.read";
  organization_id = "org";
  agent_id = "agent";
  employee_id = "employee";
  manifest_outcome = some allow;
  organization_outcome = some Override.to_approval;
  resource = some (record { type = "jira_project"; id = "AF"; in_scope = true });
}

jira_context_outcome : (evaluate_action_policy jira_context).outcome ≡ require_approval
unfolding evaluate_action_policy evaluate_policy own decisions
jira_context_outcome = refl

evaluate_policy_cases_example : Verdict "jira.delete"
evaluate_policy_cases_example = evaluate_policy_cases "jira.delete"

evaluate_action_policy_tightens_example :
    (rank (evaluate_policy jira_context.action).outcome
      ≤ rank (evaluate_action_policy jira_context).outcome)
    × (rank_manifest jira_context.manifest_outcome
        ≤ rank (evaluate_action_policy jira_context).outcome)
    × (rank_override jira_context.organization_outcome
        ≤ rank (evaluate_action_policy jira_context).outcome)
evaluate_action_policy_tightens_example = evaluate_action_policy_tightens jira_context

evaluate_action_policy_allow_iff_example :
    ((evaluate_action_policy jira_context).outcome ≡ allow) ↔ (
      ((evaluate_policy jira_context.action).outcome ≡ allow)
      × (jira_context.manifest_outcome ≡ some allow)
      × (out_of_scope jira_context.resource ≡ false)
      × (jira_context.organization_outcome ≡ none))
evaluate_action_policy_allow_iff_example = evaluate_action_policy_allow_iff jira_context

jira_base : rank (evaluate_policy "jira.read").outcome ≤ 1
unfolding evaluate_policy own decisions
jira_base = omega arith

evaluate_action_policy_least_example : rank (evaluate_action_policy jira_context).outcome ≤ 1
evaluate_action_policy_least_example =
    evaluate_action_policy_least jira_context allow 1 refl refl jira_base (omega arith)
      (omega arith)

evaluate_action_policy_conditions_example :
    Conditioned
      (evaluate_action_policy jira_context).outcome
      (evaluate_action_policy jira_context).conditions
evaluate_action_policy_conditions_example = evaluate_action_policy_conditions jira_context
