-- ===== src/Spending/Settle.antt =====
-- apps/control-plane-api/src/spending/model-spending-service.ts: `settle`.
pub mod Charges
use employee_agent_platform.Prelude.{
  ℕ, ◌+◌, Bool, true, false, ◌&&◌, ◌||◌, not, Option, none, some, List, [], ◌∷◌, ◌==◌, is_some,
  if◌then◌else◌,
}
use employee_agent_platform.Prelude.Result.{Result, ok, err, ◌>>=◌}
use employee_agent_platform.Spending.Price.{Price, cost_micros}
use employee_agent_platform.Spending.Alerts.{AlertScope}
use employee_agent_platform.Spending.Ledger.{
  Ledger, Reservation, Usage, PriceRow, find_reservation, find_price,
}
use employee_agent_platform.Spending.Reserve.{
  SpendingError, reservation_not_found, reservation_settled, model_price_missing, check_alerts,
}

-- `RuntimeModelSettlementRequest`, from a runtime.
pub record Settlement : Type 0 where
  pub reservation_id : ℕ
  pub run_id : ℕ
  pub runtime_id : ℕ
  pub input_tokens : ℕ
  pub output_tokens : ℕ
  pub now_ms : ℕ
  pub new_id : AlertScope → ℕ → ℕ

-- `Number(null)` is 0.
abbrev pub row_price : PriceRow → Price
row_price r = record {
  id = r.id;
  currency = r.currency;
  input_micros_per_million = elim r.amounts [ none ↦ 0 | some (input, output) ↦ input ];
  output_micros_per_million = elim r.amounts [ none ↦ 0 | some (input, output) ↦ output ];
}

-- `priceOf`, where the reservation has a price, and the cost at that price.
unfoldable pub settled_cost :
    Settlement → Option ℕ → List PriceRow → Result SpendingError (Option ℕ)
settled_cost s none prices = ok none
settled_cost s (some id) prices = elim (find_price id prices) [
  | none ↦ err model_price_missing
  | some r ↦ ok (some (cost_micros (row_price r) s.input_tokens s.output_tokens))
]

abbrev pub usage_of : Settlement → Option ℕ → Usage
usage_of s cost = record {
  input_tokens = s.input_tokens;
  output_tokens = s.output_tokens;
  cost_micros = cost;
  settled_at = s.now_ms;
}

-- `UPDATE … WHERE id=? AND status='RESERVED'`
abbrev pub settle_row : Settlement → Option ℕ → Reservation → Reservation
settle_row s cost r =
    if r.id == s.reservation_id && not (is_some r.settled)
    then record r { settled = some (usage_of s cost) }
    else r

unfoldable pub settle_rows : Settlement → Option ℕ → List Reservation → List Reservation
settle_rows s cost [] = []
settle_rows s cost (r ∷ rest) = settle_row s cost r ∷ settle_rows s cost rest

abbrev record_usage : Settlement → ℕ → Ledger → Option ℕ → Ledger
record_usage s period l cost =
    check_alerts s.runtime_id period s.now_ms s.new_id
      (record l { reservations = settle_rows s cost l.reservations })

abbrev owned : Settlement → Reservation → Bool
owned s r = r.run_id == s.run_id && r.runtime_id == s.runtime_id

unfoldable pub settle_found : Settlement → Reservation → Ledger → Result SpendingError Ledger
settle_found s r l =
    if owned s r
    then (elim r.settled [
      | some u ↦
          if u.input_tokens == s.input_tokens && u.output_tokens == s.output_tokens
          then ok l
          else err reservation_settled
      | none ↦ settled_cost s r.price_id l.prices >>= λ cost. ok (record_usage s r.period l cost)
    ])
    else err reservation_not_found

unfoldable pub settle : Settlement → Ledger → Result SpendingError Ledger
settle s l = elim (find_reservation s.reservation_id l.reservations) [
  | none ↦ err reservation_not_found
  | some r ↦ settle_found s r l
]
