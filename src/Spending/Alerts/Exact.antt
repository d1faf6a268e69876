-- ===== src/Spending/Alerts/Exact.antt =====
-- apps/control-plane-api/src/spending/model-budget-alerts.ts: which alerts stand after a check.
use employee_agent_platform.Prelude.{
  ℕ, ◌≡◌, refl, Bool, true, false, ◌&&◌, ◌||◌, not, Option, none, some, List, [], ◌∷◌, ◌++◌, any,
  ◌*◌, leb, ◌==◌, if◌then◌else◌, arith, ◌∙◌, ap,
}
use employee_agent_platform.Spending.Alerts.{
  AlertCheck, AlertScope, monthly_tokens, monthly_cost, Alert, AlertBook, same_key, scope_eq, raise,
  raise_due, reached_is, is_due, distinct, member, check, check_limit, limit_reached,
}

-- Whether an alert stands for a month, a scope and a threshold.
abbrev pub stands : ℕ → AlertScope → ℕ → AlertBook → Bool
stands p scope t book = any (same_key p scope t) book.alerts

abbrev same : ℕ → AlertScope → ℕ → ℕ → AlertScope → ℕ → Bool
same p s t p' s' t' = p' == p && (scope_eq s' s && t' == t)

any-same :
    (p p' : ℕ) (s s' : AlertScope) (t t' : ℕ) (l : List Alert)
    → same p s t p' s' t' ≡ true
    → any (same_key p s t) l ≡ any (same_key p' s' t') l
any-same p p' s s' t t' [] h = refl
any-same p p' monthly_tokens monthly_tokens t t' (a ∷ l) h =
    ground (arith, any-same p p' monthly_tokens monthly_tokens t t' l h)
any-same p p' monthly_cost monthly_cost t t' (a ∷ l) h =
    ground (arith, any-same p p' monthly_cost monthly_cost t t' l h)
any-same p p' monthly_tokens monthly_cost t t' (a ∷ l) h = ground arith
any-same p p' monthly_cost monthly_tokens t t' (a ∷ l) h = ground arith

stands-raise :
    (input : AlertCheck) (s s' : AlertScope) (p t t' limit charged : ℕ) (book : AlertBook)
    → stands p s t (raise input s' t' limit charged book)
      ≡ (same p s t input.period s' t' || stands p s t book)
unfolding raise
stands-raise input s s' p t t' limit charged book =
    ground (arith, any-same p input.period s s' t t' book.alerts)

-- The thresholds of a list that are due.
any_due : AlertCheck → AlertScope → ℕ → ℕ → ℕ → List ℕ → Bool
any_due input s limit charged t [] = false
any_due input s limit charged t (u ∷ l) =
    (u == t && is_due input s limit charged u) || any_due input s limit charged t l

stands-raise_if :
    (b : Bool) (input : AlertCheck) (s s' : AlertScope) (p t t' limit charged : ℕ)
    (book : AlertBook)
    → stands p s t (if b then raise input s' t' limit charged book else book)
      ≡ ((b && same p s t input.period s' t') || stands p s t book)
stands-raise_if true input s s' p t t' limit charged book =
    stands-raise input s s' p t t' limit charged book
stands-raise_if false input s s' p t t' limit charged book = refl

-- How the tests of one threshold and of the later ones come together.
regroup :
    (period scope this due later now : Bool)
    → ((period && (scope && later)) || ((due && (period && (scope && this))) || now))
      ≡ ((period && (scope && ((this && due) || later))) || now)
regroup period scope this due later now = ground arith

stands-raise_due :
    (input : AlertCheck) (s s' : AlertScope) (p t limit charged : ℕ) (l : List ℕ) (book : AlertBook)
    → stands p s t (raise_due input s' limit charged l book) ≡ (
        (input.period == p && (scope_eq s' s && any_due input s' limit charged t l))
        || stands p s t book)
unfolding raise_due any_due
stands-raise_due input s s' p t limit charged [] book = ground arith
stands-raise_due input s s' p t limit charged (u ∷ l) book =
    stands-raise_due input s s' p t limit charged l _
    ∙ ap
        (λ (b : Bool).
          (input.period == p && (scope_eq s' s && any_due input s' limit charged t l)) || b)
        (stands-raise_if (is_due input s' limit charged u) input s s' p t u limit charged book)
    ∙ regroup (input.period == p) (scope_eq s' s) (u == t) (is_due input s' limit charged u)
        (any_due input s' limit charged t l) (stands p s t book)

any_due_lem :
    (input : AlertCheck) (s : AlertScope) (limit charged t : ℕ) (l : List ℕ)
    → any_due input s limit charged t l ≡ (member t l && is_due input s limit charged t)
unfolding any_due
any_due_lem input s limit charged t [] = refl
any_due_lem input s limit charged t (u ∷ l) = ground (arith, any_due_lem input s limit charged t l)

member-distinct :
    (t : ℕ) (seen l : List ℕ) → member t (distinct seen l) ≡ (member t l && not (member t seen))
unfolding distinct
member-distinct t seen [] = refl
member-distinct t seen (u ∷ l) =
    ground (arith, member-distinct t seen l, member-distinct t (u ∷ seen) l)

-- Whether a check asks for an alert of this scope and threshold: the budget has that monthly limit,
-- the threshold is configured or is the limit itself, and it is due.
abbrev due_for : AlertCheck → AlertScope → Option ℕ → ℕ → ℕ → Bool
due_for input s none charged t = false
due_for input s (some limit) charged t =
    member t (input.budget.alert_thresholds_percent ++ limit_reached ∷ [])
    && (leb (t * limit) (charged * 100) || t == limit_reached && reached_is s input.reached)

and_true : (b : Bool) → (b && true) ≡ b
and_true true = refl
and_true false = refl

stands-check_limit :
    (input : AlertCheck) (s s' : AlertScope) (p t : ℕ) (limit : Option ℕ) (charged : ℕ)
    (book : AlertBook)
    → stands p s t (check_limit input s' limit charged book) ≡ (
        (input.period == p && (scope_eq s' s && due_for input s' limit charged t))
        || stands p s t book)
unfolding check_limit
stands-check_limit input s s' p t none charged book = ground arith
stands-check_limit input s s' p t (some limit) charged book =
    stands-raise_due input s s' p t limit charged _ book
    ∙ ap (λ (b : Bool). (input.period == p && (scope_eq s' s && b)) || stands p s t book)
        (any_due_lem input s' limit charged t _
          ∙ ap (λ (b : Bool). b && is_due input s' limit charged t)
              (member-distinct t [] _ ∙ and_true _))

both_limits :
    (period other due before : Bool) {now : Bool}
    → now ≡ ((period && (true && due)) || before)
    → ((period && (false && other)) || now) ≡ ((period && due) || before)
both_limits period other due before h = ground arith

cost_limit :
    (period due other before : Bool) {now : Bool}
    → now ≡ ((period && (false && other)) || before)
    → ((period && (true && due)) || now) ≡ ((period && due) || before)
cost_limit period due other before h = ground arith

-- What a check asks for, of either scope.
abbrev pub wanted : AlertCheck → AlertScope → ℕ → Bool
wanted input monthly_tokens t =
    due_for input monthly_tokens input.budget.monthly_token_limit input.charged.tokens t
wanted input monthly_cost t =
    due_for input monthly_cost input.budget.monthly_cost_limit_micros input.charged.cost t

-- After a check an alert stands for a month, a scope and a threshold exactly when it stood before, or
-- the month is the one checked and the check asks for it: the budget has the monthly limit, the
-- threshold is configured or is 100, and charged usage is at least that percentage of the limit (or
-- the limit has just refused a call and the threshold is 100). No alert is lost, none is missed.
pub stands-check :
    (input : AlertCheck) (s : AlertScope) (p t : ℕ) (book : AlertBook)
    → stands p s t (check input book)
      ≡ ((input.period == p && wanted input s t) || stands p s t book)
unfolding check
stands-check input monthly_tokens p t book =
    stands-check_limit input monthly_tokens monthly_cost p t _ _ _
    ∙ both_limits (input.period == p) (wanted input monthly_cost t) (wanted input monthly_tokens t)
        (stands p monthly_tokens t book)
        (stands-check_limit input monthly_tokens monthly_tokens p t _ _ book)
stands-check input monthly_cost p t book =
    stands-check_limit input monthly_cost monthly_cost p t _ _ _
    ∙ cost_limit (input.period == p) (wanted input monthly_cost t) (wanted input monthly_tokens t)
        (stands p monthly_cost t book)
        (stands-check_limit input monthly_cost monthly_tokens p t _ _ book)
