-- ===== src/Spending/Alerts.antt =====
-- apps/control-plane-api/src/spending/model-budget-alerts.ts: the alerts of one organization, and the
-- budget that they watch.
pub mod Exact
pub mod Once
use employee_agent_platform.Prelude.{
  ℕ, String, str_eq, ◌+◌, ◌*◌, ◌≡◌, Bool, true, false, ◌&&◌, ◌||◌, not, Option, none, some, List,
  [], ◌∷◌, ◌++◌, any, leb, ◌==◌, is_some, if◌then◌else◌,
}
use employee_agent_platform.Prelude.Result.{Result, ok, err, ◌>>=◌, ◌>>◌, throw_if}

-- `OrganizationModelBudget`, and a row of `organization_model_budgets`.
pub record Budget : Type 0 where
  pub monthly_token_limit : Option ℕ
  pub run_token_limit : Option ℕ
  pub currency : String
  pub monthly_cost_limit_micros : Option ℕ
  pub run_cost_limit_micros : Option ℕ
  pub alert_thresholds_percent : List ℕ
  pub version : ℕ
  pub updated_by : Option ℕ
  pub updated_at : Option ℕ

pub data AlertScope : Type 0 where
  monthly_tokens monthly_cost : AlertScope

abbrev pub scope_eq : AlertScope → AlertScope → Bool
scope_eq monthly_tokens monthly_tokens = true
scope_eq monthly_cost monthly_cost = true
scope_eq monthly_tokens monthly_cost = false
scope_eq monthly_cost monthly_tokens = false

abbrev pub limit_reached : ℕ
limit_reached = 100

pub record Alert : Type 0 where
  pub id : ℕ
  pub period : ℕ
  pub scope : AlertScope
  pub threshold_percent : ℕ
  pub limit : ℕ
  pub charged : ℕ
  pub currency : Option String
  pub created_at : ℕ
  pub acknowledged_by : Option ℕ
  pub acknowledged_at : Option ℕ

-- What is charged for a month or a run.
pub record Charge : Type 0 where
  pub tokens : ℕ
  pub cost : ℕ

-- `AlertCheck`, with the random identifier that each alert would be given.
pub record AlertCheck : Type 0 where
  pub actor_id : ℕ
  pub period : ℕ
  pub budget : Budget
  pub charged : Charge
  pub reached : Option AlertScope
  pub now_ms : ℕ
  pub new_id : AlertScope → ℕ → ℕ

-- The rows of `model_budget_alerts`, the identifiers of the alerts that were audited, and what
-- `onRaised` was called with, the newest first.
pub record AlertBook : Type 0 where
  pub alerts : List Alert
  pub audited : List ℕ
  pub raised : List Alert

-- The key of the table's unique constraint.
abbrev pub same_key : ℕ → AlertScope → ℕ → Alert → Bool
same_key period scope threshold a =
    a.period == period && (scope_eq a.scope scope && a.threshold_percent == threshold)

abbrev new_alert : AlertCheck → AlertScope → ℕ → ℕ → ℕ → Alert
new_alert input scope threshold limit charged = record {
  id = input.new_id scope threshold;
  period = input.period;
  scope = scope;
  threshold_percent = threshold;
  limit = limit;
  charged = charged;
  currency = if scope_eq scope monthly_cost then some input.budget.currency else none;
  created_at = input.now_ms;
  acknowledged_by = none;
  acknowledged_at = none;
}

-- `INSERT … ON CONFLICT DO NOTHING`, and what follows if it inserted.
unfoldable pub raise : AlertCheck → AlertScope → ℕ → ℕ → ℕ → AlertBook → AlertBook
raise input scope threshold limit charged book =
    let a = new_alert input scope threshold limit charged in
    if any (same_key input.period scope threshold) book.alerts then book else record {
      alerts = a ∷ book.alerts;
      audited = a.id ∷ book.audited;
      raised = a ∷ book.raised;
    }

abbrev member : ℕ → List ℕ → Bool
member t l = any (λ x. x == t) l

-- `[...new Set(list)]` keeps the first of each value.
unfoldable pub distinct : List ℕ → List ℕ → List ℕ
distinct seen [] = []
distinct seen (t ∷ rest) =
    let others = distinct (t ∷ seen) rest in
    if member t seen then distinct seen rest else t ∷ others

abbrev pub reached_is : AlertScope → Option AlertScope → Bool
reached_is scope none = false
reached_is scope (some s) = scope_eq s scope

-- The test of one threshold: charged / limit >= threshold / 100, or the limit that refused a call.
abbrev pub is_due : AlertCheck → AlertScope → ℕ → ℕ → ℕ → Bool
is_due input scope limit charged threshold =
    leb (threshold * limit) (charged * 100)
    || threshold == limit_reached && reached_is scope input.reached

-- The inner loop of `check`, over the distinct thresholds.
unfoldable pub raise_due : AlertCheck → AlertScope → ℕ → ℕ → List ℕ → AlertBook → AlertBook
raise_due input scope limit charged [] book = book
raise_due input scope limit charged (t ∷ rest) book =
    raise_due input scope limit charged rest
      (if is_due input scope limit charged t then raise input scope t limit charged book else book)

unfoldable pub check_limit : AlertCheck → AlertScope → Option ℕ → ℕ → AlertBook → AlertBook
check_limit input scope none charged book = book
check_limit input scope (some limit) charged book =
    raise_due input scope limit charged
      (distinct [] (input.budget.alert_thresholds_percent ++ limit_reached ∷ [])) book

unfoldable pub check : AlertCheck → AlertBook → AlertBook
check input book =
    check_limit input monthly_cost input.budget.monthly_cost_limit_micros input.charged.cost
      (check_limit input monthly_tokens input.budget.monthly_token_limit input.charged.tokens book)

pub data AlertError : Type 0 where
  organization_admin_required alert_not_found alert_acknowledged : AlertError

unfoldable pub find_alert : ℕ → List Alert → Option Alert
find_alert id [] = none
find_alert id (a ∷ rest) = if a.id == id then some a else find_alert id rest

-- `UPDATE … WHERE id=? AND acknowledged_at IS NULL`
abbrev acknowledge_row : ℕ → ℕ → ℕ → Alert → Alert
acknowledge_row actor now id a =
    if a.id == id && not (is_some a.acknowledged_at)
    then record a { acknowledged_by = some actor; acknowledged_at = some now }
    else a

acknowledge_all : ℕ → ℕ → ℕ → List Alert → List Alert
acknowledge_all actor now id [] = []
acknowledge_all actor now id (a ∷ rest) =
    acknowledge_row actor now id a ∷ acknowledge_all actor now id rest

-- `is_admin` is the outcome of `OrganizationStructureService.authorize`.
unfoldable pub acknowledge : Bool → ℕ → ℕ → ℕ → AlertBook → Result AlertError AlertBook
unfolding find_alert acknowledge_all
acknowledge is_admin actor now id book =
    if is_admin
    then (elim (find_alert id book.alerts) [
      | none ↦ err alert_not_found
      | some a ↦
          if is_some a.acknowledged_at
          then err alert_acknowledged
          else ok (record book { alerts = acknowledge_all actor now id book.alerts })
    ])
    else err organization_admin_required
