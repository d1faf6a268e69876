-- ===== src/Gateway/Governed.antt =====
-- apps/control-plane-api/src/actions/action-gateway.ts, `assess`: what an assessment rests on.
use employee_agent_platform.Prelude.{
  String, List, [], ◌∷◌, ◌∙◌, Bool-cases, inl, inr, if◌then◌else◌, and_left, and_right, ==_iff, ℕ,
  ◌≡◌, ◌≢◌, refl, true, false, ◌&&◌, not, Option, none, some, any, ◌==◌, str_eq, arith, sym, ap,
}
use employee_agent_platform.Prelude.Result.{
  Result, ok, err, Post, Post-bind, Post-throw_if, Post-value,
}
use employee_agent_platform.Policy.{deny, ActionPolicyContext, evaluate_action_policy}
use employee_agent_platform.Gateway.{Ledger, RunRow, find_by}
use employee_agent_platform.Gateway.Registry.{includes, control_plane_action, execution_action}
use employee_agent_platform.Gateway.Targets.{
  Names, Post-or_deny, not-false, ActsOn, target_of-ActsOn,
}
use employee_agent_platform.Gateway.Rows.{find_by-key}
use employee_agent_platform.Gateway.Assess.{
  Authority, Target, authority_of, judge, assess, or_denied, same_digest, version_differs,
  find_capability,
}
use employee_agent_platform.Gateway.World.{
  Denial, manifest_invalid, tool_not_in_manifest, blueprint_unavailable, blueprint_digest_mismatch,
  tool_version_mismatch, action_not_governed_by_tool, action_not_in_manifest, World, Question,
  Bundle, Capability, Tool, Assessment,
}

-- The signed manifest is that of the run, grants the tool and the action, and names the blueprint whose
-- bundle has the tool, which governs the action.
pub record Governed (w : World) (run : RunRow) (q : Question) (a : Authority) : Type 0 where
  pub bundle : Bundle
  pub signed : w.manifest ≡ some a.manifest
  pub v2 : a.manifest.is_v2 ≡ true
  pub of_run : a.manifest.manifest_id ≡ run.manifest_id
  pub grants_tool : any (λ t. t == q.tool_id) a.manifest.tools ≡ true
  pub found : w.bundle ≡ some bundle
  pub same_blueprint : a.manifest.blueprint_digest ≡ some bundle.digest
  pub tool : a.tool.id ≡ q.tool_id
  pub of_bundle : find_by (λ (t : Tool). t.id) q.tool_id bundle.tools ≡ some a.tool
  pub version : Names q.tool_version a.tool.version
  pub governs : any (λ x. str_eq x q.action) a.tool.governed_actions ≡ true
  pub grants_action : find_capability q.action a.manifest.capabilities ≡ some a.capability
  pub of_action : str_eq a.capability.action q.action ≡ true

same_digest-some : (o : Option ℕ) (d : ℕ) → not (same_digest o d) ≡ false → o ≡ some d
same_digest-some none d h = absurd (cc)
same_digest-some (some e) d h = ap some (sym ((==_iff d e).0 (ground (arith, h))))

version_differs-Names : (o : Option ℕ) (v : ℕ) → version_differs o v ≡ false → Names o v
version_differs-Names none v h = tt
version_differs-Names (some u) v h = sym ((==_iff v u).0 (not-false _ h))

find_capability-action :
    (action : String) (l : List Capability) (c : Capability)
    → find_capability action l ≡ some c
    → str_eq c.action action ≡ true
find_capability-action action [] c h = absurd (cc)
find_capability-action action (x ∷ l) c h = elim (Bool-cases (str_eq x.action action)) [
  | inl y ↦
      let same : some x ≡ some c =
        sym (ap (λ b. if b then some x else find_capability action l) y) ∙ h in
      sym (
        ap (λ (o : Option Capability). elim o [ none ↦ true | some z ↦ str_eq z.action action ])
          same)
      ∙ y
  | inr n ↦
      find_capability-action action l c
        (sym (ap (λ b. if b then some x else find_capability action l) n) ∙ h)
]

authority_of-Governed :
    (w : World) (run : RunRow) (q : Question) → Post (Governed w run q) (authority_of w run q)
unfolding authority_of
authority_of-Governed w run q =
    Post-bind _ _ (Post-or_deny manifest_invalid w.manifest) (λ m signed.
      Post-bind _ _
        (Post-throw_if (not (m.is_v2 && m.manifest_id == run.manifest_id)) manifest_invalid)
        (λ _ v.
          Post-bind _ _
            (Post-throw_if (not (any (λ t. t == q.tool_id) m.tools)) tool_not_in_manifest)
            (λ _ t. Post-bind _ _ (Post-or_deny blueprint_unavailable w.bundle) (λ b found.
              Post-bind _ _
                (Post-throw_if (not (same_digest m.blueprint_digest b.digest))
                  blueprint_digest_mismatch)
                (λ _ d.
                  Post-bind _ _
                    (Post-or_deny tool_version_mismatch
                      (find_by (λ (t : Tool). t.id) q.tool_id b.tools))
                    (λ tool at.
                      Post-bind _ _
                        (Post-throw_if (version_differs q.tool_version tool.version)
                          tool_version_mismatch)
                        (λ _ u.
                          Post-bind _ _
                            (Post-throw_if (not (includes q.action tool.governed_actions))
                              action_not_governed_by_tool)
                            (λ _ g.
                              Post-bind _ _
                                (Post-or_deny action_not_in_manifest
                                  (find_capability q.action m.capabilities))
                                (λ c known. Post-value _ (record {
                                  bundle = b;
                                  signed = signed;
                                  v2 = and_left m.is_v2 _ (not-false _ v);
                                  of_run = (==_iff _ _).0 (and_right m.is_v2 _ (not-false _ v));
                                  grants_tool = not-false _ t;
                                  found = found;
                                  same_blueprint = same_digest-some m.blueprint_digest b.digest d;
                                  tool = find_by-key (λ (t : Tool). t.id) q.tool_id b.tools tool at;
                                  of_bundle = at;
                                  version = version_differs-Names q.tool_version tool.version u;
                                  of_action =
                                      find_capability-action q.action m.capabilities c known;
                                  governs = not-false _ g;
                                  grants_action = known;
                                }))))))))))

-- What the policy is asked.
abbrev pub asked_of : World → Question → Authority → Target → ActionPolicyContext
asked_of w q a t = record {
  action = q.action;
  organization_id = w.organization_id;
  agent_id = w.agent_id;
  employee_id = w.employee_id;
  manifest_outcome = some a.capability.outcome;
  organization_outcome = w.override q.action;
  resource = t.resource;
}

-- What an assessment that is no denial rests on.
abbrev pub Rests : World → RunRow → Question → Ledger → Assessment → Type 0
Rests w run q l v =
    (a : Authority) × Governed w run q a
    × (t : Target) × ActsOn w run q a l (control_plane_action q.action) (execution_action q.action)
        t
    × (v.handler ≡ t.handler)
    × (v.parameters ≡ t.parameters)
    × (v.connection ≡ t.connection)
    × (v.changes ≡ t.changes)
    × (v.execution ≡ t.execution)
    × (v.policy ≡ some (evaluate_action_policy (asked_of w q a t)))
    × (v.risk ≡ (evaluate_action_policy (asked_of w q a t)).risk)
    × (v.outcome ≡ (evaluate_action_policy (asked_of w q a t)).outcome)

judge-Rests :
    (w : World) (run : RunRow) (q : Question) (l : Ledger)
    → Post (Rests w run q l) (judge w run q l)
unfolding judge
judge-Rests w run q l = Post-bind _ _ (authority_of-Governed w run q) (λ a g.
    Post-bind _ _ (target_of-ActsOn w run q a l)
      (λ t c. Post-value _ (a, g, t, c, refl, refl, refl, refl, refl, refl, refl, refl)))

-- The gateway fails closed. A request that is not denied is of the run's own signed manifest, which grants
-- its tool and its action and names the blueprint that has the tool; a tool version that it names is
-- that of the tool. If the action is one of a connector, its payload parses, a digest that it names is
-- the payload's, a connection is active, the manifest grants the capability, and what is to be published
-- is the change set of the payload's directory; if it is one of the execution environment, its payload
-- is an operation that the action allows, with the same check of a digest. The outcome and the risk are
-- those of the policy for the run's capability, the organization's override, and the resource of that payload, with
-- the scope that the connection's settings or the configuration give it; any other action has no
-- resource. The assessment has the payload, the connection, the changes and the operation of these checks.
pub assess_fails_closed :
    (w : World) (run : RunRow) (q : Question) (l : Ledger)
    → (assess w run q l).outcome ≢ deny
    → Rests w run q l (assess w run q l)
unfolding assess
assess_fails_closed w run q l h = judged_so (judge w run q l) (judge-Rests w run q l) h
  where
    judged_so :
        (m : Result Denial Assessment)
        → Post (Rests w run q l) m
        → (or_denied m).outcome ≢ deny
        → Rests w run q l (or_denied m)
    judged_so (ok v) p n = p.holds
    judged_so (err d) p n = absurd (n refl)
