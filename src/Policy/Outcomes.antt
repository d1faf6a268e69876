-- ===== src/Policy/Outcomes.antt =====
-- packages/policy-engine/src/index.ts: every input of Policy v2 keeps or tightens the decision.
use employee_agent_platform.Prelude.{ℕ, ◌≤◌, ◌≡◌, ◌↔◌, false, Option, none, some, arith}
use employee_agent_platform.Policy.{
  Outcome, allow, Override, rank, of_override, ActionPolicyContext, out_of_scope, evaluate_policy,
  evaluate_action_policy, evaluate_from, PolicyDecision,
}

-- The rank that an input asks for: an action that the manifest does not grant is denied.
abbrev pub rank_manifest : Option Outcome → ℕ
rank_manifest none = 2
rank_manifest (some m) = rank m

abbrev pub rank_override : Option Override → ℕ
rank_override none = 0
rank_override (some o) = rank (of_override o)

tightens_from :
    (base : PolicyDecision) (c : ActionPolicyContext)
    → (rank base.outcome ≤ rank (evaluate_from base c).outcome)
      × (rank_manifest c.manifest_outcome ≤ rank (evaluate_from base c).outcome)
      × (rank_override c.organization_outcome ≤ rank (evaluate_from base c).outcome)
unfolding evaluate_from
tightens_from base c = ground arith

-- Policy v2 never loosens: its outcome ranks at least as high as the platform's decision on the
-- action, as the outcome in the manifest (a denial if the manifest does not grant the action), and
-- as the organization's override, if there is one.
pub evaluate_action_policy_tightens :
    (c : ActionPolicyContext)
    → (rank (evaluate_policy c.action).outcome ≤ rank (evaluate_action_policy c).outcome)
      × (rank_manifest c.manifest_outcome ≤ rank (evaluate_action_policy c).outcome)
      × (rank_override c.organization_outcome ≤ rank (evaluate_action_policy c).outcome)
unfolding evaluate_action_policy
evaluate_action_policy_tightens c = tightens_from (evaluate_policy c.action) c

allow_from :
    (base : PolicyDecision) (c : ActionPolicyContext)
    → ((evaluate_from base c).outcome ≡ allow) ↔ (
        (base.outcome ≡ allow)
        × (c.manifest_outcome ≡ some allow)
        × (out_of_scope c.resource ≡ false)
        × (c.organization_outcome ≡ none))
unfolding evaluate_from
allow_from base c = ground arith

-- An action is allowed without approval exactly when the platform allows it, the manifest grants
-- it as allowed, its resource (if any) is in scope, and the organization has no override.
pub evaluate_action_policy_allow_iff :
    (c : ActionPolicyContext)
    → ((evaluate_action_policy c).outcome ≡ allow) ↔ (
        ((evaluate_policy c.action).outcome ≡ allow)
        × (c.manifest_outcome ≡ some allow)
        × (out_of_scope c.resource ≡ false)
        × (c.organization_outcome ≡ none))
unfolding evaluate_action_policy
evaluate_action_policy_allow_iff c = allow_from (evaluate_policy c.action) c

least_from :
    (base : PolicyDecision) (c : ActionPolicyContext) (m : Outcome) (k : ℕ)
    → c.manifest_outcome ≡ some m
    → out_of_scope c.resource ≡ false
    → rank base.outcome ≤ k
    → rank m ≤ k
    → rank_override c.organization_outcome ≤ k
    → rank (evaluate_from base c).outcome ≤ k
unfolding evaluate_from
least_from base c m k hm hs hb hk ho = ground arith

-- For a granted action in scope the outcome is the strictest of the three and no stricter: any
-- rank that bounds the platform's, the manifest's and the organization's bounds the outcome's.
pub evaluate_action_policy_least :
    (c : ActionPolicyContext) (m : Outcome) (k : ℕ)
    → c.manifest_outcome ≡ some m
    → out_of_scope c.resource ≡ false
    → rank (evaluate_policy c.action).outcome ≤ k
    → rank m ≤ k
    → rank_override c.organization_outcome ≤ k
    → rank (evaluate_action_policy c).outcome ≤ k
unfolding evaluate_action_policy
evaluate_action_policy_least c = least_from (evaluate_policy c.action) c
