-- ===== src/Spending/Price/Exact.antt =====
-- apps/control-plane-api/src/spending/model-prices.ts: the most output that fits is exact.
use employee_agent_platform.Prelude.{ℕ, ◌+◌, ◌*◌, ◌/◌, ◌-◌, ◌^◌, ◌≤◌, ◌<◌, ◌≡◌, ◌↔◌, arith}
use employee_agent_platform.Prelude.Int.{ℤ, pos, negsuc, ◌≤ℤ◌}
use native.Mathlib.Nat.{le_trans, add-le-add, mul-le-mul_left, mul-le-mul_right}
use native.Mathlib.Decide.{dec_le, dec_lt}
use employee_agent_platform.Spending.Price.{
  Price, cost_micros, max_output_within, fin, infinity, million, max_price, Within,
}

-- Rounding up is the least quotient whose multiple covers the scaled cost.
round_up_le : (x r : ℕ) → ((x + million - 1) / million ≤ r) ↔ (x ≤ r * million)
round_up_le x r = (λ h. omega arith, λ h. omega arith)

pub cost_micros_le :
    (p : Price) (i o r : ℕ)
    → (cost_micros p i o ≤ r)
      ↔ (i * p.input_micros_per_million + o * p.output_micros_per_million ≤ r * million)
unfolding cost_micros
cost_micros_le p i o r = round_up_le _ r

-- Multiplying below a quotient.
le_div_iff : (o b k : ℕ) → 0 < k → (o ≤ b / k) ↔ (o * k ≤ b)
le_div_iff o b k h = (λ e. grind arith, λ e. grind arith)

-- The three branches, for an amount that is not negative.
too_little :
    (p : Price) (rem i : ℕ)
    → rem * million < i * p.input_micros_per_million
    → max_output_within p (pos rem) i ≡ fin (negsuc 0)
unfolding max_output_within
too_little p rem i h = ground arith

free_output :
    (p : Price) (rem i : ℕ)
    → i * p.input_micros_per_million ≤ rem * million
    → p.output_micros_per_million ≡ 0
    → max_output_within p (pos rem) i ≡ infinity
unfolding max_output_within
free_output p rem i h e = ground arith

paid_output :
    (p : Price) (rem i : ℕ)
    → i * p.input_micros_per_million ≤ rem * million
    → 0 < p.output_micros_per_million
    → max_output_within p (pos rem) i
      ≡ fin (pos ((rem * million - i * p.input_micros_per_million) / p.output_micros_per_million))
unfolding max_output_within
paid_output p rem i h e = ground arith

overdrawn : (p : Price) (n i : ℕ) → max_output_within p (negsuc n) i ≡ fin (negsuc 0)
unfolding max_output_within
overdrawn p n i = ground arith

-- The same comparison before the cost is rounded up.
Scaled : Price → ℕ → ℕ → ℕ → Type 0
Scaled p rem i o = i * p.input_micros_per_million + o * p.output_micros_per_million ≤ rem * million

Scaled-paid :
    (p : Price) (rem i o : ℕ)
    → i * p.input_micros_per_million ≤ rem * million
    → 0 < p.output_micros_per_million
    → Scaled p rem i o ↔ Within o (max_output_within p (pos rem) i)
unfolding Scaled
Scaled-paid p rem i o h k =
    let bound =
      le_div_iff o (rem * million - i * p.input_micros_per_million) p.output_micros_per_million k in
    rw (paid_output p rem i h k)
      (λ e. omega (arith, bound.1 (omega arith)), λ e. omega (arith, bound.0 (omega arith)))

Scaled-iff :
    (p : Price) (rem i o : ℕ) → Scaled p rem i o ↔ Within o (max_output_within p (pos rem) i)
Scaled-iff p rem i o = elim (dec_le (i * p.input_micros_per_million) (rem * million)) [
  | no h ↦
      rw (too_little p rem i (omega arith)) (unfold Scaled in (λ e. omega arith, λ e. omega arith))
  | yes h ↦ elim (dec_lt 0 p.output_micros_per_million) [
    | yes k ↦ Scaled-paid p rem i o h k
    | no k ↦ rw (free_output p rem i h (omega arith)) (unfold Scaled in (λ e. tt, λ e. grind arith))
  ]
]

-- The output that fits is exact: a call with `o` output tokens costs at most the remaining amount
-- exactly when `o` is within `maxOutputWithin` of it, also where the remaining amount is negative.
pub max_output_within_iff :
    (p : Price) (rem : ℤ) (i o : ℕ)
    → (pos (cost_micros p i o) ≤ℤ rem) ↔ Within o (max_output_within p rem i)
unfolding Scaled
max_output_within_iff p (pos rem) i o = (
  λ h. (Scaled-iff p rem i o).0 ((cost_micros_le p i o rem).0 (omega arith)),
  λ h. omega (arith, (cost_micros_le p i o rem).1 ((Scaled-iff p rem i o).1 h)),
)
max_output_within_iff p (negsuc n) i o = rw (overdrawn p n i) (λ h. omega arith, λ h. omega arith)

mul-le-mul : {a b c d : ℕ} → a ≤ b → c ≤ d → a * c ≤ b * d
mul-le-mul {b = b} {c = c} h k = le_trans (mul-le-mul_right c h) (mul-le-mul_left b k)

-- With a price in its range and the runtime protocol's bound on tokens a cost is below 2 ^ 53, so
-- the conversion to a `number` loses nothing.
pub cost_micros-lt-safe :
    (p : Price) (i o : ℕ)
    → p.input_micros_per_million ≤ max_price
    → p.output_micros_per_million ≤ max_price
    → i ≤ 10000000
    → o ≤ 10000000
    → cost_micros p i o < 2 ^ 53
cost_micros-lt-safe p i o hi ho h k = omega (
  arith,
  (cost_micros_le p i o 200000000000).1
      (le_trans (add-le-add (mul-le-mul h hi) (mul-le-mul k ho)) (omega arith)),
)
