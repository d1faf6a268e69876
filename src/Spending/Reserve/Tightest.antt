-- ===== src/Spending/Reserve/Tightest.antt =====
-- apps/control-plane-api/src/spending/model-spending-service.ts: what fits the tightest limit fits all.
use employee_agent_platform.Prelude.{
  ℕ, ◌+◌, ◌≤◌, ◌≡◌, refl, true, false, Option, none, some, List, [], ◌∷◌, All, arith, if◌then◌else◌,
  min, Bool, sym,
}
use mathlib.Core.Path.{subst}
use mathlib.Core.Option.{some-injective}
use employee_agent_platform.Prelude.Int.{pos, pos_part, sub_ℕ, -ℤ_parts, sub_ℕ_parts}
use employee_agent_platform.Spending.Price.{Price, Amount, fin, infinity, Within, cost_micros}
use employee_agent_platform.Spending.Price.Exact.{max_output_within_iff}
use employee_agent_platform.Spending.Ledger.{Scope}
use employee_agent_platform.Spending.Reserve.{
  Fit, Request, tokens_fit, cost_fit, ltb_amount, tightest, tightest_from, grant_of, too_small,
}

-- `n` tokens of output are within what a limit allows.
abbrev pub Allows : ℕ → Fit → Type 0
Allows n f = Within n f.output

less_allows : (n : ℕ) (a b : Amount) → ltb_amount a b ≡ true → Within n a → Within n b
less_allows n (fin a) (fin b) h w = ground arith
less_allows n (fin a) infinity h w = tt
less_allows n infinity b h w = ground arith

more_allows : (n : ℕ) (a b : Amount) → ltb_amount a b ≡ false → Within n b → Within n a
more_allows n (fin a) (fin b) h w = ground arith
more_allows n (fin a) infinity h w = ground arith
more_allows n infinity b h w = tt

tightest_from-Allows :
    (n : ℕ) (rest : List Fit) (f : Fit)
    → Allows n (tightest_from f rest)
    → All (Allows n) (f ∷ rest)
unfolding tightest_from
tightest_from-Allows n [] f h = (h, tt)
tightest_from-Allows n (g ∷ rest) f h =
    kept (ltb_amount g.output f.output) refl (tightest_from-Allows n rest _ h)
  where
    kept :
        (b : Bool)
        → ltb_amount g.output f.output ≡ b
        → All (Allows n) ((if b then g else f) ∷ rest)
        → All (Allows n) (f ∷ g ∷ rest)
    kept true e (w, ws) = (less_allows n g.output f.output e w, (w, ws))
    kept false e (w, ws) = (w, (more_allows n g.output f.output e w, ws))

pub tightest-Allows :
    (n : ℕ) (l : List Fit) (f : Fit) → tightest l ≡ some f → Allows n f → All (Allows n) l
unfolding tightest
tightest-Allows n [] f h w = tt
tightest-Allows n (x ∷ l) f h w =
    tightest_from-Allows n l x (subst (Allows n) (sym (some-injective _ _ h)) w)

pub tightest-none : (n : ℕ) (l : List Fit) → tightest l ≡ none → All (Allows n) l
unfolding tightest
tightest-none n [] h = tt
tightest-none n (x ∷ l) h = cc h

-- A grant that is not too small is within the tightest limit, and within what was asked.
pub grant-Allows :
    (most : ℕ) (f : Fit)
    → too_small most (some f) ≡ false
    → Allows (pos_part (grant_of most (some f))) f
      × (pos_part (grant_of most (some f)) ≤ most)
      × (min 256 most ≤ pos_part (grant_of most (some f)))
unfolding too_small
grant-Allows most f h = grind arith

-- A limit holds of an amount, where there is one.
abbrev pub Under : Option ℕ → ℕ → Type 0
Under none n = Unit
Under (some cap) n = n ≤ cap

pub tokens-Under :
    (n : ℕ) (req : Request) (s : Scope) (cap : Option ℕ) (used : ℕ)
    → All (Allows n) (tokens_fit req s cap used)
    → Under cap (req.estimated_input_tokens + n + used)
tokens-Under n req s none used h = tt
tokens-Under n req s (some cap) used h =
    omega
      (arith, -ℤ_parts (sub_ℕ cap used) (pos req.estimated_input_tokens), sub_ℕ_parts cap used, h.0)

pub cost-Under :
    (n : ℕ) (req : Request) (p : Price) (s : Scope) (cap : Option ℕ) (used : ℕ)
    → All (Allows n) (cost_fit req (some p) s cap used)
    → Under cap (cost_micros p req.estimated_input_tokens n + used)
cost-Under n req p s none used h = tt
cost-Under n req p s (some cap) used h = omega (
  arith,
  (max_output_within_iff p (sub_ℕ cap used) req.estimated_input_tokens n).1 h.0,
  sub_ℕ_parts cap used,
)
