-- ===== src/Spending/Ledger.antt =====
-- apps/control-plane-api/src/spending: the rows of one organization, and the queries on them. New rows
-- stand at the head, so the newest row of a query comes first.
use employee_agent_platform.Prelude.{
  ℕ, String, ◌+◌, Bool, ◌&&◌, Option, none, some, List, [], ◌∷◌, ◌==◌, if◌then◌else◌,
}
use employee_agent_platform.Spending.Price.{Price}
use employee_agent_platform.Spending.Alerts.{Budget, AlertBook, Charge}

-- A row of `model_usage_reservations`. It is settled when `settled` holds what was reported.
pub record Usage : Type 0 where
  pub input_tokens : ℕ
  pub output_tokens : ℕ
  pub cost_micros : Option ℕ
  pub settled_at : ℕ

pub record Reservation : Type 0 where
  pub id : ℕ
  pub run_id : ℕ
  pub employee_id : ℕ
  pub agent_id : ℕ
  pub runtime_id : ℕ
  pub provider : ℕ
  pub model : ℕ
  pub period : ℕ
  pub reserved_tokens : ℕ
  pub max_output_tokens : ℕ
  pub request_hash : ℕ
  pub created_at : ℕ
  pub price_id : Option ℕ
  pub currency : Option String
  pub reserved_cost_micros : Option ℕ
  pub settled : Option Usage

-- A row of `model_prices`; a removal has no amounts.
pub record PriceRow : Type 0 where
  pub id : ℕ
  pub provider : ℕ
  pub model : ℕ
  pub currency : String
  pub amounts : Option (ℕ × ℕ)
  pub supersedes : Option ℕ
  pub set_by : ℕ
  pub set_at : ℕ

pub data Scope : Type 0 where
  monthly run monthly_cost run_cost price : Scope

-- What `remaining` holds in the audit of a denial.
pub data Remaining : Type 0 where
  nothing : Remaining
  remaining_tokens remaining_cost_micros : ℕ → Remaining

-- The audit of a denial: who, for which run, in which period, what was requested and what was left.
pub record Denial : Type 0 where
  pub runtime_id : ℕ
  pub run_id : ℕ
  pub scope : Scope
  pub period : ℕ
  pub provider : ℕ
  pub model : ℕ
  pub requested_tokens : ℕ
  pub remaining : Remaining

-- `organization_change_events`, with the state before and after.
pub data Change : Type 0 where
  budget_updated : ℕ → Option Budget → Budget → Change
  price_updated : ℕ → Option PriceRow → PriceRow → Change
  price_removed : ℕ → PriceRow → Change

pub record Ledger : Type 0 where
  pub reservations : List Reservation
  pub prices : List PriceRow
  pub budget : Option Budget
  pub book : AlertBook
  pub denials : List Denial
  pub changes : List Change

unfoldable pub find_reservation : ℕ → List Reservation → Option Reservation
find_reservation id [] = none
find_reservation id (r ∷ rest) = if r.id == id then some r else find_reservation id rest

-- `CHARGED`: settled usage, or the reserved size until settlement.
abbrev pub charged_tokens : Reservation → ℕ
charged_tokens r = elim r.settled [
  | none ↦ r.reserved_tokens
  | some u ↦ u.input_tokens + u.output_tokens
]

-- `CHARGED_COST`: `SUM` skips a row without a cost.
abbrev or_zero : Option ℕ → ℕ
or_zero none = 0
or_zero (some n) = n

abbrev pub charged_cost : Reservation → ℕ
charged_cost r = elim r.settled [
  | none ↦ or_zero r.reserved_cost_micros
  | some u ↦ or_zero u.cost_micros
]

-- The two ways to select rows: `period=?` and `run_id=?`.
pub data Selection : Type 0 where
  in_period in_run : ℕ → Selection

abbrev pub selects : Selection → Reservation → Bool
selects (in_period p) r = r.period == p
selects (in_run id) r = r.run_id == id

unfoldable pub sum_tokens : Selection → List Reservation → ℕ
sum_tokens w [] = 0
sum_tokens w (r ∷ rest) = (if selects w r then charged_tokens r else 0) + sum_tokens w rest

unfoldable pub sum_cost : Selection → List Reservation → ℕ
sum_cost w [] = 0
sum_cost w (r ∷ rest) = (if selects w r then charged_cost r else 0) + sum_cost w rest

unfoldable pub charged : Selection → Ledger → Charge
charged w l = record { tokens = sum_tokens w l.reservations; cost = sum_cost w l.reservations }

unfoldable pub latest : ℕ → ℕ → List PriceRow → Option PriceRow
latest provider model [] = none
latest provider model (r ∷ rest) =
    if r.provider == provider && r.model == model then some r else latest provider model rest

abbrev pub to_price : PriceRow → Option Price
to_price r = elim r.amounts [
  | none ↦ none
  | some (input, output) ↦ some (record {
    id = r.id;
    currency = r.currency;
    input_micros_per_million = input;
    output_micros_per_million = output;
  })
]

-- `ModelPriceService.current`
unfoldable pub current : ℕ → ℕ → List PriceRow → Option Price
unfolding latest
current provider model rows = elim (latest provider model rows) [
  | none ↦ none
  | some r ↦ to_price r
]

unfoldable pub find_price : ℕ → List PriceRow → Option PriceRow
find_price id [] = none
find_price id (r ∷ rest) = if r.id == id then some r else find_price id rest

abbrev pub default_currency : String
default_currency = "USD"

-- `mapBudget`: the row, or the defaults before there is one.
unfoldable pub map_budget : Option Budget → Budget
map_budget none = record {
  monthly_token_limit = none;
  run_token_limit = none;
  currency = default_currency;
  monthly_cost_limit_micros = none;
  run_cost_limit_micros = none;
  alert_thresholds_percent = 80 ∷ [];
  version = 0;
  updated_by = none;
  updated_at = none;
}
map_budget (some b) = b
