-- ===== src/Policy/Conditions.antt =====
-- packages/policy-engine/src/index.ts: the conditions of a decision.
use employee_agent_platform.Prelude.{
  ℕ, ◌*◌, ◌≤◌, ◌≡◌, refl, ◌≢◌, ◌⊎◌, inl, inr, List, [], ◌∷◌, arith,
}
use employee_agent_platform.Policy.{
  Outcome, allow, require_approval, deny, Risk, PolicyCondition, ttl_seconds, bind_to_input_digest,
  approval_ttl_seconds, ActionPolicyContext, PolicyDecision, conditions_of, evaluate_from,
  evaluate_policy, evaluate_action_policy,
}

-- The conditions of a decision with this outcome.
abbrev pub Conditioned : Outcome → List PolicyCondition → Type 0
Conditioned outcome conditions =
    ((ttl : ℕ) × (outcome ≡ require_approval)
      × (conditions ≡ ttl_seconds ttl ∷ bind_to_input_digest ∷ [])
      × (3600 ≤ ttl)
      × (ttl ≤ 24 * 3600))
    ⊎ ((outcome ≢ require_approval) × (conditions ≡ []))

Conditioned-by :
    (o : Outcome) (r : Risk) (l : List PolicyCondition) → l ≡ conditions_of o r → Conditioned o l
Conditioned-by require_approval r l h =
    inl (approval_ttl_seconds r, refl, h, ground arith, ground arith)
Conditioned-by allow r l h = inr (λ e. cc e, h)
Conditioned-by deny r l h = inr (λ e. cc e, h)

conditions_from :
    (base : PolicyDecision) (c : ActionPolicyContext)
    → (evaluate_from base c).conditions
      ≡ conditions_of (evaluate_from base c).outcome (evaluate_from base c).risk
unfolding evaluate_from
conditions_from base c = ground arith

-- A decision that requires approval carries exactly two conditions, an approval lifetime between one
-- hour and one day and the binding to the input's digest; any other decision carries none.
pub evaluate_action_policy_conditions :
    (c : ActionPolicyContext)
    → Conditioned (evaluate_action_policy c).outcome (evaluate_action_policy c).conditions
unfolding evaluate_action_policy
evaluate_action_policy_conditions c =
    Conditioned-by _ (evaluate_action_policy c).risk _
      (conditions_from (evaluate_policy c.action) c)
