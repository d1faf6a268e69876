-- ===== src/Prelude/Result.antt =====
-- Results of operations that may throw. A thrown error rolls the caller's transaction back, so an
-- error carries no state.
use employee_agent_platform.Prelude.Tests.{if◌then◌else◌}
use mathlib.Core.Path.{◌≡◌, refl, subst}
use mathlib.Core.Option.{Option, none, some}
use mathlib.Core.Bool.{Bool, true, false}

pub data Result {ℓ κ} (E : Type κ) (A : Type ℓ) : Type (ℓ ⊔ κ) where
  ok : A → Result E A
  err : E → Result E A

infixl 5 ◌>>=◌ ◌>>◌
abbrev pub ◌>>=◌ {ℓ κ η} :
    {E : Type η} {A : Type ℓ} {B : Type κ} → Result E A → (A → Result E B) → Result E B
ok a >>= f = f a
err e >>= f = err e

abbrev pub ◌>>◌ {κ η} : {E : Type η} {B : Type κ} → Result E (Unit {0}) → Result E B → Result E B
m >> k = m >>= λ _. k

-- `if (c) throw e;`
abbrev pub throw_if {η} : {E : Type η} → Bool → E → Result E (Unit {0})
throw_if c e = if c then err e else ok tt

abbrev Holds {ℓ κ η} : {E : Type κ} {A : Type ℓ} → (A → Type η) → Result E A → Type η
Holds P (ok a) = P a
Holds P (err e) = Unit

-- What holds of a result, where there is one. A record, so that the rules below find their arguments.
pub record Post {ℓ κ η} {E : Type κ} {A : Type ℓ} (P : A → Type η) (m : Result E A) : Type η where
  pub holds : Holds P m

module _ {ℓ κ η} {E : Type κ} {A : Type ℓ} {P : A → Type η} where
  pub Post-value : (a : A) → P a → Post {E = E} P (ok a)
  Post-value a h = record { holds = h }

  pub Post-error : (e : E) → Post P (err e)
  Post-error e = record { holds = tt }

  pub Post-any : (m : Result E A) → ((a : A) → P a) → Post P m
  Post-any (ok a) h = Post-value a (h a)
  Post-any (err e) h = Post-error e

  pub Post-if :
      (b : Bool) (m n : Result E A)
      → (b ≡ true → Post P m)
      → (b ≡ false → Post P n)
      → Post P (if b then m else n)
  Post-if true m n h k = h refl
  Post-if false m n h k = k refl

  pub Post-ok : (m : Result E A) (a : A) → Post P m → m ≡ ok a → P a
  Post-ok m a h e = (subst (Post P) e h).holds

-- What has not been thrown.
pub Post-throw_if {κ} : {E : Type κ} (c : Bool) (e : E) → Post (λ _. c ≡ false) (throw_if c e)
Post-throw_if true e = Post-error e
Post-throw_if false e = Post-value tt refl

module _ {ℓ κ η} {E : Type κ} {A B : Type ℓ} {P : A → Type η} {Q : B → Type η} where
  pub Post-bind :
      (m : Result E A) (f : A → Result E B)
      → Post P m
      → ((a : A) → P a → Post Q (f a))
      → Post Q (m >>= f)
  Post-bind (ok a) f h k = k a h.holds
  Post-bind (err e) f h k = Post-error e

module _ {ℓ κ η} {E : Type κ} {A B : Type ℓ} {Q : B → Type η} where
  pub Post-then :
      (m : Result E A) (f : A → Result E B) → ((a : A) → Post Q (f a)) → Post Q (m >>= f)
  Post-then (ok a) f k = k a
  Post-then (err e) f k = Post-error e

module _ {ℓ κ η ν} {E : Type κ} {A : Type ℓ} {P : A → Type η} {Q : A → Type ν} where
  pub Post-map : (m : Result E A) → ((a : A) → P a → Q a) → Post P m → Post Q m
  Post-map (ok a) f h = Post-value a (f a h.holds)
  Post-map (err e) f h = Post-error e

module _ {ℓ κ η ν} {E : Type κ} {A : Type ℓ} {B : Type ν} {P : A → Type η} where
  pub Post-option :
      (o : Option B) (m : Result E A) (f : B → Result E A)
      → (o ≡ none → Post P m)
      → ((b : B) → o ≡ some b → Post P (f b))
      → Post P (elim o [ none ↦ m | some b ↦ f b ])
  Post-option none m f h k = h refl
  Post-option (some b) m f h k = k b refl
