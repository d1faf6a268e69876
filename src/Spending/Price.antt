-- ===== src/Spending/Price.antt =====
-- apps/control-plane-api/src/spending/model-prices.ts: what a call costs. `bigint`s are exact, so
-- they are numbers; `remainingMicros` and `budget` can be negative, so they are integers.
pub mod Exact
use employee_agent_platform.Prelude.{
  ℕ, String, str_eq, ◌+◌, ◌*◌, ◌/◌, ◌-◌, ◌^◌, Bool, ◌||◌, Option, none, some, ltb, ◌==◌,
  if◌then◌else◌,
}
use employee_agent_platform.Prelude.Int.{ℤ, pos, negsuc, pos_part, sub_ℕ, ltb_ℤ, ◌≤ℤ◌}

abbrev pub million : ℕ
million = 1000000

abbrev pub max_price : ℕ
max_price = 10000000000

pub record Price : Type 0 where
  pub id : ℕ
  pub currency : String
  pub input_micros_per_million : ℕ
  pub output_micros_per_million : ℕ

-- What a call costs in micros, rounded up. The source's `Number(...)` of the quotient is exact below
-- 2 ^ 53.
unfoldable pub cost_micros : Price → ℕ → ℕ → ℕ
cost_micros p input_tokens output_tokens =
    (input_tokens * p.input_micros_per_million
      + output_tokens * p.output_micros_per_million
      + million
      - 1)
    / million

-- A number that may be `Number.POSITIVE_INFINITY`.
pub data Amount : Type 0 where
  fin : ℤ → Amount
  infinity : Amount

abbrev pub output_budget : Price → ℤ → ℕ → ℤ
output_budget p remaining input_tokens =
    sub_ℕ (pos_part remaining * million) (input_tokens * p.input_micros_per_million)

-- `Math.max(0, remaining)` is `pos_part remaining`. The source's last step, `Number`, rounds from 2^53 on;
-- the quotient is exact here.
unfoldable pub max_output_within : Price → ℤ → ℕ → Amount
max_output_within p remaining input_tokens =
    let budget = output_budget p remaining input_tokens in
    if ltb_ℤ remaining (pos 0) || ltb_ℤ budget (pos 0)
    then fin (negsuc 0)
    else if p.output_micros_per_million == 0
    then infinity
    else fin (pos (pos_part budget / p.output_micros_per_million))

-- `n <= amount`, for a number of tokens.
abbrev pub Within : ℕ → Amount → Type 0
Within n infinity = Unit {0}
Within n (fin a) = pos n ≤ℤ a
