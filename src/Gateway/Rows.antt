-- ===== src/Gateway/Rows.antt =====
-- Rows that are found by a key.
use mathlib.Core.Option
use employee_agent_platform.Prelude.{
  Bool-cases, inl, inr, ==_iff, ℕ, ◌≡◌, refl, Option, none, some, List, [], ◌∷◌, ◌++◌, ◌==◌,
  if◌then◌else◌, map, arith, sym, ap, ◌∙◌,
}
use employee_agent_platform.Gateway.{find_by}

module _ {A : Type 0} (key : A → ℕ) where
  pub find_by-key : (id : ℕ) (l : List A) (x : A) → find_by key id l ≡ some x → key x ≡ id
  unfolding find_by
  find_by-key id [] x h = absurd (cc)
  find_by-key id (y ∷ l) x h = elim (Bool-cases (key y == id)) [
    | inl e ↦
        let found : some y ≡ some x =
          sym (ap (λ b. if b then some y else find_by key id l) e) ∙ h in
        ap (λ (o : Option A). elim o [ none ↦ id | some z ↦ key z ]) (sym found)
        ∙ (==_iff (key y) id).0 e
    | inr e ↦ find_by-key id l x (sym (ap (λ b. if b then some y else find_by key id l) e) ∙ h)
  ]

  -- An update that leaves the keys.
  pub find_by-map :
      (f : A → A)
      → ((x : A) → key (f x) ≡ key x)
      → (id : ℕ) (l : List A) → find_by key id (map f l) ≡ Option.map f (find_by key id l)
  unfolding find_by
  find_by-map f keyed id [] = refl
  find_by-map f keyed id (x ∷ l) = ground (arith, keyed x, find_by-map f keyed id l)

  -- A row that is inserted last.
  pub find_by-append :
      (x : A) (l : List A)
      → find_by key (key x) l ≡ none
      → find_by key (key x) (l ++ x ∷ []) ≡ some x
  unfolding find_by
  find_by-append x [] h = rw ((==_iff (key x) (key x)).1 refl) refl
  find_by-append x (y ∷ l) h = elim (Bool-cases (key y == key x)) [
    | inl e ↦ absurd (clash (sym (ap (λ b. if b then some y else find_by key (key x) l) e) ∙ h))
    | inr n ↦
        rw n
          (find_by-append x l (sym (ap (λ b. if b then some y else find_by key (key x) l) n) ∙ h))
  ]
    where
      clash : some y ≡ none → ⊥
      clash e = cc
