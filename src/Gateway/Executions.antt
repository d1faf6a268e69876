-- ===== src/Gateway/Executions.antt =====
-- apps/control-plane-api/src/actions/action-gateway.ts: what every call leaves of the executions that are
-- recorded.
use mathlib.Core.Option
use employee_agent_platform.Prelude.{
  Bool-cases, inl, inr, ==_iff, ℕ, ◌≡◌, refl, false, Option, none, some, List, [], ◌∷◌, ◌==◌, map,
  arith, subst, sym, ap, ◌∙◌,
}
use employee_agent_platform.Gateway.Plan.{close_row, close}
use employee_agent_platform.Gateway.{
  Ledger, ActionExecution, is_dispatching, find_by, find_execution,
}

-- An execution that was recorded is recorded, and is the same one if it has ended.
abbrev pub Follows : Option ActionExecution → Option ActionExecution → Type 0
Follows none o = Unit
Follows (some e) none = ⊥
Follows (some e) (some e') = is_dispatching e.status ≡ false → e' ≡ e

pub Follows-refl : (o : Option ActionExecution) → Follows o o
Follows-refl none = tt
Follows-refl (some e) = λ h. refl

pub Follows-trans : (a b c : Option ActionExecution) → Follows a b → Follows b c → Follows a c
Follows-trans none b c h k = tt
Follows-trans (some x) none c h k = elim h [ ]
Follows-trans (some x) (some y) none h k = elim k [ ]
Follows-trans (some x) (some y) (some z) h k =
    λ e. k (subst (λ (t : ActionExecution). is_dispatching t.status ≡ false) (sym (h e)) e) ∙ h e

-- One ledger keeps the executions of another.
pub record Keeps (l l' : Ledger) : Type 0 where
  pub at : (id : ℕ) → Follows (find_execution id l) (find_execution id l')

pub Keeps-refl : (l : Ledger) → Keeps l l
Keeps-refl l = record { at = λ id. Follows-refl (find_execution id l) }

pub Keeps-trans : (a b c : Ledger) → Keeps a b → Keeps b c → Keeps a c
Keeps-trans a b c h k = record {
  at = λ id.
      Follows-trans (find_execution id a) (find_execution id b) (find_execution id c) (h.at id)
        (k.at id);
}

-- What leaves the executions' rows alone.
pub Keeps-same : (l l' : Ledger) → l'.executions ≡ l.executions → Keeps l l'
Keeps-same l l' e = record {
  at = λ id.
      subst (Follows (find_execution id l)) (ap (find_by (λ x. x.request_id) id) (sym e))
        (Follows-refl (find_execution id l));
}

found_under :
    (e x : ActionExecution) (id : ℕ) (l : List ActionExecution)
    → find_by (λ y. y.request_id) e.request_id l ≡ none
    → find_by (λ y. y.request_id) id l ≡ some x
    → find_by (λ y. y.request_id) id (e ∷ l) ≡ some x
unfolding find_by
found_under e x id l fresh h = elim (Bool-cases (e.request_id == id)) [
  | inl q ↦
      absurd (clash (sym (ap (λ n. find_by (λ y. y.request_id) n l) ((==_iff _ _).0 q)) ∙ fresh))
  | inr q ↦ rw q h
]
  where
    clash : find_by (λ y. y.request_id) id l ≡ none → ⊥
    clash k = cc

-- A row for a request that has none.
pub Keeps-new :
    (e : ActionExecution) (l : Ledger)
    → find_execution e.request_id l ≡ none
    → Keeps l (record l { executions = e ∷ l.executions })
Keeps-new e l fresh = record { at = λ id. added id (find_execution id l) refl }
  where
    added :
        (id : ℕ) (o : Option ActionExecution)
        → find_execution id l ≡ o
        → Follows o (find_execution id (record l { executions = e ∷ l.executions }))
    added id none h = tt
    added id (some x) h =
        subst (Follows (some x)) (sym (found_under e x id l.executions fresh h)) (λ q. refl)

module _ (id : ℕ) (f : ActionExecution → ActionExecution)
    (keyed : (e : ActionExecution) → (f e).request_id ≡ e.request_id) where
  find-close :
      (k : ℕ) (l : List ActionExecution)
      → find_by (λ y. y.request_id) k (map (close_row id f) l)
        ≡ Option.map (close_row id f) (find_by (λ y. y.request_id) k l)
  unfolding find_by
  find-close k [] = refl
  find-close k (e ∷ l) = ground (arith, keyed e, find-close k l)

  closed-Follows : (o : Option ActionExecution) → Follows o (Option.map (close_row id f) o)
  closed-Follows none = tt
  closed-Follows (some e) = λ h. ground (arith, h)

  -- An execution that is dispatching is closed.
  pub Keeps-close : (l : Ledger) → Keeps l (close id f l)
  Keeps-close l = record {
    at = λ k.
        subst (Follows (find_execution k l)) (sym (find-close k l.executions))
          (closed-Follows (find_execution k l));
  }
