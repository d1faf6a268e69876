-- ===== src/Spending/Alerts/Once.antt =====
-- apps/control-plane-api/src/spending/model-budget-alerts.ts: alerts are unique, and are
-- acknowledged once.
use employee_agent_platform.Prelude.{
  ℕ, ◌+◌, ◌≤◌, ◌≡◌, refl, Bool, true, false, ◌&&◌, Option, none, some, List, [], ◌∷◌, any, ◌==◌,
  if◌then◌else◌, arith, inl, inr, Option-cases,
}
use employee_agent_platform.Prelude.Result.{ok, err}
use employee_agent_platform.Spending.Alerts.{
  AlertCheck, AlertScope, monthly_tokens, monthly_cost, Alert, AlertBook, same_key, scope_eq, raise,
  raise_due, is_due, check, check_limit, acknowledge, find_alert, acknowledge_all, acknowledge_row,
  alert_acknowledged,
}

-- How many alerts a list has for a month, a scope and a threshold.
abbrev pub count_key : ℕ → AlertScope → ℕ → List Alert → ℕ
count_key p s t [] = 0
count_key p s t (a ∷ l) = (if same_key p s t a then 1 else 0) + count_key p s t l

-- No two alerts share a key.
pub record IsOnce (book : AlertBook) : Type 0 where
  pub unique : (p : ℕ) (s : AlertScope) (t : ℕ) → count_key p s t book.alerts ≤ 1

count_key_zero :
    (p : ℕ) (s : AlertScope) (t : ℕ) (l : List Alert)
    → any (same_key p s t) l ≡ false
    → count_key p s t l ≡ 0
count_key_zero p s t [] h = refl
count_key_zero p s t (a ∷ l) h = ground (arith, count_key_zero p s t l)

count_same :
    (p p' : ℕ) (s s' : AlertScope) (t t' : ℕ) (l : List Alert)
    → (p' == p && (scope_eq s' s && t' == t)) ≡ true
    → count_key p s t l ≡ count_key p' s' t' l
count_same p p' s s' t t' [] h = refl
count_same p p' monthly_tokens monthly_tokens t t' (a ∷ l) h =
    ground (arith, count_same p p' monthly_tokens monthly_tokens t t' l h)
count_same p p' monthly_cost monthly_cost t t' (a ∷ l) h =
    ground (arith, count_same p p' monthly_cost monthly_cost t t' l h)
count_same p p' monthly_tokens monthly_cost t t' (a ∷ l) h = ground arith
count_same p p' monthly_cost monthly_tokens t t' (a ∷ l) h = ground arith

raise-IsOnce :
    (input : AlertCheck) (s : AlertScope) (t limit charged : ℕ) (book : AlertBook)
    → IsOnce book
    → IsOnce (raise input s t limit charged book)
unfolding raise
raise-IsOnce input s t limit charged book h = record {
  unique = λ p' s' t'. ground (
    arith,
    h.unique p' s' t',
    count_key_zero input.period s t book.alerts,
    count_same p' input.period s' s t' t book.alerts,
  );
}

raise_due-IsOnce :
    (input : AlertCheck) (s : AlertScope) (limit charged : ℕ) (l : List ℕ) (book : AlertBook)
    → IsOnce book
    → IsOnce (raise_due input s limit charged l book)
unfolding raise_due
raise_due-IsOnce input s limit charged [] book h = h
raise_due-IsOnce input s limit charged (t ∷ l) book h =
    raise_due-IsOnce input s limit charged l _ (go (is_due input s limit charged t))
  where
    go : (b : Bool) → IsOnce (if b then raise input s t limit charged book else book)
    go true = raise-IsOnce input s t limit charged book h
    go false = h

check_limit-IsOnce :
    (input : AlertCheck) (s : AlertScope) (limit : Option ℕ) (charged : ℕ) (book : AlertBook)
    → IsOnce book
    → IsOnce (check_limit input s limit charged book)
unfolding check_limit
check_limit-IsOnce input s none charged book h = h
check_limit-IsOnce input s (some limit) charged book h =
    raise_due-IsOnce input s limit charged _ book h

-- However often usage is checked, no month, scope and threshold has two alerts.
pub check-IsOnce : (input : AlertCheck) (book : AlertBook) → IsOnce book → IsOnce (check input book)
unfolding check
check-IsOnce input book h = check_limit-IsOnce input _ _ _ _ (check_limit-IsOnce input _ _ _ book h)

-- A row that is looked up after the update is the updated row.
find-acknowledge_all :
    (actor now id : ℕ) (l : List Alert)
    → find_alert id (acknowledge_all actor now id l)
      ≡ elim (find_alert id l) [ none ↦ none | some a ↦ some (acknowledge_row actor now id a) ]
unfolding find_alert acknowledge_all
find-acknowledge_all actor now id [] = refl
find-acknowledge_all actor now id (a ∷ l) = ground (arith, find-acknowledge_all actor now id l)

find_alert_id : (id : ℕ) (l : List Alert) (a : Alert) → find_alert id l ≡ some a → a.id ≡ id
unfolding find_alert
find_alert_id id [] a h = ground arith
find_alert_id id (x ∷ l) a h = ground (arith, find_alert_id id l a)

-- An alert that was acknowledged can not be acknowledged again, by anyone.
pub acknowledge_once :
    (is_admin : Bool) (actor other now later id : ℕ) (book book' : AlertBook)
    → acknowledge is_admin actor now id book ≡ ok book'
    → acknowledge true other later id book' ≡ err alert_acknowledged
unfolding acknowledge
acknowledge_once is_admin actor other now later id book book' h =
    elim (Option-cases (find_alert id book.alerts)) [
      | inl missing ↦ ground arith
      | inr (a, found) ↦
          ground
            (arith, find-acknowledge_all actor now id book.alerts, find_alert_id id book.alerts a)
    ]
