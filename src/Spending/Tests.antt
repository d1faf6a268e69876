-- ===== src/Spending/Tests.antt =====
-- apps/control-plane-api/src/spending at a concrete ledger: a monthly limit of 1000 tokens, a monthly
-- cost limit of 50 micros, and one model at 20000 and 80000 micros per million tokens.
use employee_agent_platform.Prelude.{
  ℕ, ◌+◌, ◌≤◌, ◌<◌, ◌^◌, ◌≡◌, refl, ◌↔◌, Bool, true, false, ◌&&◌, ◌||◌, none, some, [], ◌∷◌, ◌==◌,
  arith, if◌then◌else◌,
}
use employee_agent_platform.Prelude.Int.{pos, ◌≤ℤ◌}
use employee_agent_platform.Prelude.Result.{ok, err}
use employee_agent_platform.Spending.Price.{Price, cost_micros, max_output_within, Within}
use employee_agent_platform.Spending.Price.Exact.{max_output_within_iff, cost_micros-lt-safe}
use employee_agent_platform.Spending.Alerts.{
  Budget, AlertCheck, AlertBook, Alert, monthly_tokens, check, check_limit, raise, raise_due,
  distinct, acknowledge, alert_acknowledged,
}
use employee_agent_platform.Spending.Alerts.Exact.{stands, wanted, stands-check}
use employee_agent_platform.Spending.Alerts.Once.{IsOnce, check-IsOnce, acknowledge_once}
use employee_agent_platform.Spending.Ledger.{
  Ledger, in_period, charged, find_reservation, selects, map_budget, sum_tokens, sum_cost, current,
  Reservation,
}
use employee_agent_platform.Spending.Reserve.{
  Call, allowed, reserve, decide, decide_with, fits, tightest, too_small, insert, check_alerts,
  reservation_settled,
}
use employee_agent_platform.Spending.Reserve.Limits.{IsWithin, reserve-IsWithin}
use employee_agent_platform.Spending.Settle.{
  Settlement, settle, settle_found, settled_cost, settle_rows,
}
use employee_agent_platform.Spending.Settle.Charges.{IsKeyed, settle_charges, settle_again}

abbrev budget : Budget
budget = record {
  monthly_token_limit = some 1000;
  run_token_limit = none;
  currency = "EUR";
  monthly_cost_limit_micros = some 50;
  run_cost_limit_micros = none;
  alert_thresholds_percent = 40 ∷ [];
  version = 1;
  updated_by = some 1;
  updated_at = some 1;
}

abbrev no_alerts : AlertBook
no_alerts = record { alerts = []; audited = []; raised = [] }

abbrev empty : Ledger
empty = record {
  reservations = [];
  prices =
      record {
        id = 5;
        provider = 1;
        model = 1;
        currency = "EUR";
        amounts = some (20000, 80000);
        supersedes = none;
        set_by = 1;
        set_at = 1;
      }
      ∷ [];
  budget = some budget;
  book = no_alerts;
  denials = [];
  changes = [];
}

abbrev call : Call
call = record {
  run = record { id = 1; employee_id = 1; agent_id = 1 };
  runtime_id = 1;
  request = record {
    reservation_id = 7;
    provider = 1;
    model = 1;
    estimated_input_tokens = 100;
    max_output_tokens = 1000;
  };
  request_hash = 77;
  period = 202601;
  now_ms = 10;
  new_id = λ _ t. t;
}

reserve_state : Ledger
reserve_state = (decide call empty).1

-- 50 micros leave room for 600 tokens of output.
reserved : reserve call empty ≡ ok (allowed 600, reserve_state)
unfolding reserve_state reserve decide decide_with fits tightest too_small insert check_alerts
    map_budget charged sum_tokens sum_cost current max_output_within cost_micros find_reservation
    check check_limit raise_due raise distinct employee_agent_platform.Prelude.Int.◌-ℤ◌
reserved = refl

no_reservation : find_reservation 7 empty.reservations ≡ none
unfolding find_reservation
no_reservation = refl

reserve-IsWithin_example : IsWithin (map_budget empty.budget) 202601 1 reserve_state
reserve-IsWithin_example = reserve-IsWithin call empty reserve_state 600 no_reservation reserved

abbrev price : Price
price = record {
  id = 5;
  currency = "EUR";
  input_micros_per_million = 20000;
  output_micros_per_million = 80000;
}

max_output_within_iff_example :
    (pos (cost_micros price 100 600) ≤ℤ pos 50) ↔ Within 600 (max_output_within price (pos 50) 100)
max_output_within_iff_example = max_output_within_iff price (pos 50) 100 600

cost_micros-lt-safe_example : cost_micros price 100 600 < 2 ^ 53
cost_micros-lt-safe_example =
    cost_micros-lt-safe price 100 600 (omega arith) (omega arith) (omega arith) (omega arith)

abbrev input : AlertCheck
input = record {
  actor_id = 1;
  period = 202601;
  budget = budget;
  charged = record { tokens = 400; cost = 10 };
  reached = none;
  now_ms = 10;
  new_id = λ _ t. t;
}

stands-check_example : stands 202601 monthly_tokens 40 (check input no_alerts) ≡ (
    (202601 == 202601 && wanted input monthly_tokens 40)
    || stands 202601 monthly_tokens 40 no_alerts)
stands-check_example = stands-check input monthly_tokens 202601 40 no_alerts

none-IsOnce : IsOnce no_alerts
none-IsOnce = record { unique = λ p s t. omega arith }

check-IsOnce_example : IsOnce (check input no_alerts)
check-IsOnce_example = check-IsOnce input no_alerts none-IsOnce

abbrev alert : Alert
alert = record {
  id = 3;
  period = 202601;
  scope = monthly_tokens;
  threshold_percent = 40;
  limit = 1000;
  charged = 400;
  currency = none;
  created_at = 1;
  acknowledged_by = none;
  acknowledged_at = none;
}

abbrev one_alert : AlertBook
one_alert = record { alerts = alert ∷ []; audited = 3 ∷ []; raised = alert ∷ [] }

abbrev seen_alert : AlertBook
seen_alert = record one_alert {
  alerts = record alert { acknowledged_by = some 8; acknowledged_at = some 20 } ∷ [];
}

acknowledged : acknowledge true 8 20 3 one_alert ≡ ok seen_alert
unfolding acknowledge
acknowledged = refl

acknowledge_once_example : acknowledge true 9 30 3 seen_alert ≡ err alert_acknowledged
acknowledge_once_example = acknowledge_once true 8 9 20 30 3 one_alert seen_alert acknowledged

abbrev reservation : Reservation
reservation = record {
  id = 7;
  run_id = 1;
  employee_id = 1;
  agent_id = 1;
  runtime_id = 1;
  provider = 1;
  model = 1;
  period = 202601;
  reserved_tokens = 700;
  max_output_tokens = 600;
  request_hash = 77;
  created_at = 10;
  price_id = none;
  currency = none;
  reserved_cost_micros = none;
  settled = none;
}

abbrev settlement : Settlement
settlement = record {
  reservation_id = 7;
  run_id = 1;
  runtime_id = 1;
  input_tokens = 90;
  output_tokens = 110;
  now_ms = 40;
  new_id = λ _ t. t;
}

-- Without a budget there are no alerts to check.
abbrev open_ledger : Ledger
open_ledger = record empty { reservations = reservation ∷ []; budget = none }

abbrev settled_ledger : Ledger
settled_ledger = record open_ledger {
  reservations =
      record reservation {
        settled = some (record {
          input_tokens = 90;
          output_tokens = 110;
          cost_micros = none;
          settled_at = 40;
        });
      }
      ∷ [];
}

settled : settle settlement open_ledger ≡ ok settled_ledger
unfolding settle settle_found settled_cost settle_rows check_alerts map_budget find_reservation
settled = refl

found_reservation : find_reservation 7 open_ledger.reservations ≡ some reservation
unfolding find_reservation
found_reservation = refl

open_ledger-IsKeyed : IsKeyed open_ledger.reservations
unfolding find_reservation
open_ledger-IsKeyed = (refl, tt)

settle_charges_example :
    (charged (in_period 202601) settled_ledger).tokens
      + (if selects (in_period 202601) reservation then reservation.reserved_tokens else 0)
    ≡ (charged (in_period 202601) open_ledger).tokens
      + (if selects (in_period 202601) reservation then 90 + 110 else 0)
settle_charges_example =
    settle_charges settlement (in_period 202601) open_ledger settled_ledger reservation
      open_ledger-IsKeyed found_reservation refl settled

settle_again_example :
    settle (record settlement { output_tokens = 111 }) settled_ledger
    ≡ (if 90 == 90 && 110 == 111 then ok settled_ledger else err reservation_settled)
settle_again_example =
    settle_again settlement (record settlement { output_tokens = 111 }) open_ledger settled_ledger
      settled refl refl refl
