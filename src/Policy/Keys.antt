-- ===== src/Policy/Keys.antt =====
-- packages/policy-engine/src/index.ts: the keys of the decision table.
use employee_agent_platform.Prelude.{
  String, ◌≡◌, refl, ◌≢◌, ◌⊎◌, inl, inr, true, false, none, some, List, ◌∷◌, ap, arith, eq_iff,
  Option-cases,
}
use employee_agent_platform.Policy.{
  GovernedAction, key, own, find_in, is_known_action, evaluate_policy, decisions, listed, deny,
  critical,
}

-- Every action is found under its own text.
pub own-key : (a : GovernedAction) → own (key a) ≡ some a
unfolding own
own-key GovernedAction.repository_read = refl
own-key _ = refl

find_in_sound :
    (l : List GovernedAction) (s : String) (a : GovernedAction) → find_in l s ≡ some a → key a ≡ s
unfolding find_in
find_in_sound List.[] s a h = ground arith
find_in_sound (b ∷ l) s a h = ground (arith, eq_iff (key b) s, find_in_sound l s a)

pub key_of_own : (s : String) (a : GovernedAction) → own s ≡ some a → key a ≡ s
unfolding own
key_of_own s a h = find_in_sound listed s a h

-- What the policy says of a text: the decision of the governed action that it names, or a
-- critical denial where it names none.
pub data Verdict (s : String) : Type 0 where
  governed :
      (a : GovernedAction)
      → key a ≡ s
      → is_known_action s ≡ true
      → evaluate_policy s ≡ decisions a
      → Verdict s
  unknown :
      ((a : GovernedAction) → key a ≢ s)
      → is_known_action s ≡ false
      → (evaluate_policy s).outcome ≡ deny
      → (evaluate_policy s).risk ≡ critical
      → Verdict s

not_key : (s : String) → own s ≡ none → (a : GovernedAction) → key a ≢ s
not_key s h a e = cc (ap own e, own-key a)

Verdict-from : (s : String) → (own s ≡ none) ⊎ ((a : GovernedAction) × (own s ≡ some a)) → Verdict s
unfolding is_known_action evaluate_policy
Verdict-from s (inl h) =
    unknown (not_key s h) (rw h) (rw (h, evaluate_policy)) (rw (h, evaluate_policy))
Verdict-from s (inr (a, h)) = governed a (key_of_own s a h) (rw h) (rw (h, evaluate_policy))

-- Every text is the key of a governed action, and then `isKnownAction` accepts it and
-- `evaluatePolicy` returns that action's entry of the table; or it is no key, and then
-- `isKnownAction` rejects it and `evaluatePolicy` denies it at critical risk.
pub evaluate_policy_cases : (s : String) → Verdict s
evaluate_policy_cases s = Verdict-from s (Option-cases (own s))
