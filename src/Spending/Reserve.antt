-- ===== src/Spending/Reserve.antt =====
-- apps/control-plane-api/src/spending/model-spending-service.ts: `reserve`.
-- The hash of a request (SHA-256 of its canonical form) and the month of a time (`Date`) are
-- parameters. Telemetry is left out.
pub mod Tightest
pub mod Limits
use employee_agent_platform.Prelude.{
  ℕ, String, str_eq, ◌+◌, Bool, true, false, ◌&&◌, ◌||◌, not, Option, none, some, List, [], ◌∷◌,
  ◌++◌, ◌==◌, is_some, if◌then◌else◌, min,
}
use employee_agent_platform.Prelude.Int.{ℤ, pos, negsuc, pos_part, sub_ℕ, ltb_ℤ, min_ℤ, ◌-ℤ◌}
use employee_agent_platform.Prelude.Result.{Result, ok, err}
use employee_agent_platform.Spending.Price.{
  Price, Amount, fin, infinity, cost_micros, max_output_within,
}
use employee_agent_platform.Spending.Alerts.{Budget, AlertScope, AlertCheck, check, Charge}
use employee_agent_platform.Spending.Ledger.{
  Ledger, Reservation, Scope, Remaining, nothing, remaining_tokens, remaining_cost_micros, Denial,
  find_reservation, charged, Selection, in_period, in_run, current, map_budget,
}

-- `RuntimeModelReservationRequest`, for a run and a runtime that the caller has verified.
pub record Request : Type 0 where
  pub reservation_id : ℕ
  pub provider : ℕ
  pub model : ℕ
  pub estimated_input_tokens : ℕ
  pub max_output_tokens : ℕ

pub record Run : Type 0 where
  pub id : ℕ
  pub employee_id : ℕ
  pub agent_id : ℕ

pub data Decision : Type 0 where
  allowed : ℕ → Decision
  denied : Scope → Decision

pub data SpendingError : Type 0 where
  reservation_conflict reservation_not_found reservation_settled : SpendingError
  model_price_missing version_conflict currency_fixed organization_admin_required : SpendingError

abbrev pub min_output_tokens : ℕ
min_output_tokens = 256

-- One limit: the output that it allows (it can be negative), and what is left of it.
pub record Fit : Type 0 where
  pub scope : Scope
  pub output : Amount
  pub remaining : Remaining

-- The local functions `tokens` and `cost`. A cost limit is read only where there is a price.
abbrev pub tokens_fit : Request → Scope → Option ℕ → ℕ → List Fit
tokens_fit req scope none used = []
tokens_fit req scope (some cap) used =
    let left = sub_ℕ cap used in
    record {
      scope = scope;
      output = fin (left -ℤ pos req.estimated_input_tokens);
      remaining = remaining_tokens (pos_part left);
    }
    ∷ []

abbrev pub cost_fit : Request → Option Price → Scope → Option ℕ → ℕ → List Fit
cost_fit req p scope none used = []
cost_fit req none scope (some cap) used = []
cost_fit req (some p) scope (some cap) used =
    let left = sub_ℕ cap used in
    record {
      scope = scope;
      output = max_output_within p left req.estimated_input_tokens;
      remaining = remaining_cost_micros (pos_part left);
    }
    ∷ []

unfoldable pub fits : Budget → Option Price → Charge → Charge → Request → List Fit
fits b p month this_run req =
    tokens_fit req Scope.monthly b.monthly_token_limit month.tokens
    ++ tokens_fit req Scope.run b.run_token_limit this_run.tokens
    ++ cost_fit req p Scope.monthly_cost b.monthly_cost_limit_micros month.cost
    ++ cost_fit req p Scope.run_cost b.run_cost_limit_micros this_run.cost

-- `a.output - b.output < 0`
abbrev pub ltb_amount : Amount → Amount → Bool
ltb_amount (fin a) (fin b) = ltb_ℤ a b
ltb_amount (fin a) infinity = true
ltb_amount infinity b = false

-- `fits.sort((a, b) => a.output - b.output)[0]`: the sort is stable, so the first of the least.
unfoldable pub tightest_from : Fit → List Fit → Fit
tightest_from f [] = f
tightest_from f (g ∷ rest) = tightest_from (if ltb_amount g.output f.output then g else f) rest

unfoldable pub tightest : List Fit → Option Fit
unfolding tightest_from
tightest [] = none
tightest (f ∷ rest) = some (tightest_from f rest)

-- `Math.min(request.maxOutputTokens, tightest?.output ?? Infinity)`
unfoldable pub grant_of : ℕ → Option Fit → ℤ
grant_of most none = pos most
grant_of most (some f) = elim f.output [ fin a ↦ min_ℤ (pos most) a | infinity ↦ pos most ]

-- The monthly limits are watched by alerts.
abbrev monthly_alert : Scope → Option AlertScope
monthly_alert Scope.monthly = some AlertScope.monthly_tokens
monthly_alert Scope.monthly_cost = some AlertScope.monthly_cost
monthly_alert Scope.run = none
monthly_alert Scope.run_cost = none
monthly_alert Scope.price = none

-- What a call is decided with, besides the ledger.
pub record Call : Type 0 where
  pub run : Run
  pub runtime_id : ℕ
  pub request : Request
  pub request_hash : ℕ
  pub period : ℕ
  pub now_ms : ℕ
  pub new_id : AlertScope → ℕ → ℕ

abbrev denial : Call → Scope → Remaining → Denial
denial c scope remaining = record {
  runtime_id = c.runtime_id;
  run_id = c.run.id;
  scope = scope;
  period = c.period;
  provider = c.request.provider;
  model = c.request.model;
  requested_tokens = c.request.estimated_input_tokens + c.request.max_output_tokens;
  remaining = remaining;
}

abbrev deny : Call → Scope → Remaining → Ledger → Ledger
deny c scope remaining l = record l { denials = denial c scope remaining ∷ l.denials }

abbrev watch : ℕ → ℕ → ℕ → (AlertScope → ℕ → ℕ) → Option AlertScope → Ledger → Ledger
watch actor period now new_id reached l = record l {
  book =
      check
        (record {
          actor_id = actor;
          period = period;
          budget = map_budget l.budget;
          charged = charged (in_period period) l;
          reached = reached;
          now_ms = now;
          new_id = new_id;
        })
        l.book;
}

-- `checkAlerts`: without a monthly limit there is nothing to check.
unfoldable pub check_alerts : ℕ → ℕ → ℕ → (AlertScope → ℕ → ℕ) → Ledger → Ledger
check_alerts actor period now new_id l =
    let b = map_budget l.budget in
    if is_some b.monthly_token_limit || is_some b.monthly_cost_limit_micros
    then watch actor period now new_id none l
    else l

-- The denial by a limit; a monthly limit that refuses a call is reached.
unfoldable pub refuse : Call → Fit → Ledger → Ledger
refuse c f l = elim (monthly_alert f.scope) [
  | none ↦ deny c f.scope f.remaining l
  | some s ↦ watch c.runtime_id c.period c.now_ms c.new_id (some s) (deny c f.scope f.remaining l)
]

abbrev price_id : Option Price → Option ℕ
price_id none = none
price_id (some p) = some p.id

abbrev price_currency : Option Price → Option String
price_currency none = none
price_currency (some p) = some p.currency

abbrev reserved_cost : Option Price → ℕ → ℕ → Option ℕ
reserved_cost none input output = none
reserved_cost (some p) input output = some (cost_micros p input output)

abbrev pub new_reservation : Call → Option Price → ℕ → Reservation
new_reservation c p granted = record {
  id = c.request.reservation_id;
  run_id = c.run.id;
  employee_id = c.run.employee_id;
  agent_id = c.run.agent_id;
  runtime_id = c.runtime_id;
  provider = c.request.provider;
  model = c.request.model;
  period = c.period;
  reserved_tokens = c.request.estimated_input_tokens + granted;
  max_output_tokens = granted;
  request_hash = c.request_hash;
  created_at = c.now_ms;
  price_id = price_id p;
  currency = price_currency p;
  reserved_cost_micros = reserved_cost p c.request.estimated_input_tokens granted;
  settled = none;
}

unfoldable pub insert : Call → Option Price → ℕ → Ledger → Ledger
insert c p granted l =
    check_alerts c.runtime_id c.period c.now_ms c.new_id
      (record l { reservations = new_reservation c p granted ∷ l.reservations })

-- `!price || price.currency !== budget.currency`
abbrev pub priced_in : String → Option Price → Bool
priced_in currency none = false
priced_in currency (some p) = str_eq p.currency currency

abbrev pub cost_limited : Budget → Bool
cost_limited b = is_some b.monthly_cost_limit_micros || is_some b.run_cost_limit_micros

-- `tightest && granted < Math.min(MIN_OUTPUT_TOKENS, request.maxOutputTokens)`
unfoldable pub too_small : ℕ → Option Fit → Bool
unfolding grant_of
too_small most none = false
too_small most (some f) = ltb_ℤ (grant_of most (some f)) (pos (min min_output_tokens most))

abbrev tightest_fit : Call → Budget → Option Price → Ledger → Option Fit
tightest_fit c b p l =
    tightest (fits b p (charged (in_period c.period) l) (charged (in_run c.run.id) l) c.request)

-- A granted amount is not negative, so its positive part is the amount.
unfoldable pub decide_with : Call → Option Price → Option Fit → Ledger → Decision × Ledger
decide_with c p none l =
    (allowed c.request.max_output_tokens, insert c p c.request.max_output_tokens l)
decide_with c p (some f) l =
    let granted = grant_of c.request.max_output_tokens (some f) in
    if too_small c.request.max_output_tokens (some f)
    then (denied f.scope, refuse c f l)
    else (allowed (pos_part granted), insert c p (pos_part granted) l)

unfoldable pub decide : Call → Ledger → Decision × Ledger
decide c l =
    let b = map_budget l.budget in
    let p = current c.request.provider c.request.model l.prices in
    if cost_limited b && not (priced_in b.currency p)
    then (denied Scope.price, deny c Scope.price nothing l)
    else decide_with c p (tightest_fit c b p l) l

unfoldable pub reserve : Call → Ledger → Result SpendingError (Decision × Ledger)
unfolding find_reservation
reserve c l = elim (find_reservation c.request.reservation_id l.reservations) [
  | none ↦ ok (decide c l)
  | some e ↦
      if e.request_hash == c.request_hash
      then ok (allowed e.max_output_tokens, l)
      else err reservation_conflict
]
