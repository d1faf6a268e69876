-- ===== src/Spending/Reserve/Limits.antt =====
-- apps/control-plane-api/src/spending/model-spending-service.ts: what an allowed reservation charges
-- stays within every limit of the budget.
use employee_agent_platform.Prelude.{
  ℕ, ◌+◌, ◌≡◌, refl, true, false, not, ◌&&◌, Option, none, some, List, ◌∷◌, ◌++◌, All, All-left,
  All-right, arith, if◌then◌else◌, ◌==◌, Bool, ap,
}
use mathlib.Core.Path.{subst}
use employee_agent_platform.Prelude.Int.{pos_part}
use employee_agent_platform.Prelude.Result.{ok}
use employee_agent_platform.Spending.Price.{Price, cost_micros}
use employee_agent_platform.Spending.Alerts.{Budget, Charge}
use employee_agent_platform.Spending.Ledger.{
  Ledger, Scope, Selection, in_period, in_run, charged, sum_tokens, sum_cost, selects, current,
  map_budget, find_reservation, nothing,
}
use employee_agent_platform.Spending.Reserve.{
  Call, Decision, allowed, denied, Fit, tokens_fit, fits, tightest, grant_of, too_small, reserve,
  decide, decide_with, insert, refuse, deny, check_alerts, new_reservation, cost_limited, priced_in,
  tightest_fit,
}
use employee_agent_platform.Spending.Reserve.Tightest.{
  Allows, Under, tokens-Under, cost-Under, tightest-Allows, tightest-none, grant-Allows,
}

-- The charged usage of a month and of a run is within the budget's four limits.
pub record IsWithin (b : Budget) (period run : ℕ) (l : Ledger) : Type 0 where
  pub month_tokens : Under b.monthly_token_limit (charged (in_period period) l).tokens
  pub run_tokens : Under b.run_token_limit (charged (in_run run) l).tokens
  pub month_cost : Under b.monthly_cost_limit_micros (charged (in_period period) l).cost
  pub run_cost : Under b.run_cost_limit_micros (charged (in_run run) l).cost

pub reservations-check_alerts :
    (actor period now : ℕ) (new_id : employee_agent_platform.Spending.Alerts.AlertScope → ℕ → ℕ)
    (l : Ledger)
    → (check_alerts actor period now new_id l).reservations ≡ l.reservations
unfolding check_alerts
reservations-check_alerts actor period now new_id l = ground arith

pub reservations-insert :
    (c : Call) (p : Option Price) (n : ℕ) (l : Ledger)
    → (insert c p n l).reservations ≡ new_reservation c p n ∷ l.reservations
unfolding insert
reservations-insert c p n l = reservations-check_alerts c.runtime_id c.period c.now_ms c.new_id _

-- What the new row adds to the sums of its month and of its run.
charged_tokens-insert :
    (c : Call) (p : Option Price) (n : ℕ) (l : Ledger) (w : Selection)
    → selects w (new_reservation c p n) ≡ true
    → (charged w (insert c p n l)).tokens
      ≡ c.request.estimated_input_tokens + n + (charged w l).tokens
unfolding charged sum_tokens
charged_tokens-insert c p n l w h = rw reservations-insert (ground arith)

charged_cost-insert :
    (c : Call) (p : Price) (n : ℕ) (l : Ledger) (w : Selection)
    → selects w (new_reservation c (some p) n) ≡ true
    → (charged w (insert c (some p) n l)).cost
      ≡ cost_micros p c.request.estimated_input_tokens n + (charged w l).cost
unfolding charged sum_cost
charged_cost-insert c p n l w h = rw reservations-insert (ground arith)

-- An allowed call is granted an amount that every limit allows.
Granted : Call → Option Price → List Fit → Ledger → ℕ → Decision × Ledger → Type 0
Granted c p limits l g r = (r ≡ (allowed g, insert c p g l)) × All (Allows g) limits

Granted-with :
    (c : Call) (p : Option Price) (limits : List Fit) (l : Ledger) (g : ℕ) (f : Option Fit)
    → tightest limits ≡ f
    → (decide_with c p f l).0 ≡ allowed g
    → Granted c p limits l g (decide_with c p f l)
unfolding decide_with Granted
Granted-with c p limits l g none e h = (ground arith, tightest-none g limits e)
Granted-with c p limits l g (some f) e h = go (too_small most (some f)) refl h
  where
    most : ℕ
    most = c.request.max_output_tokens

    granted : ℕ
    granted = pos_part (grant_of most (some f))

    branch : Bool → Decision × Ledger
    branch b = if b then (denied f.scope, refuse c f l) else (allowed granted, insert c p granted l)

    go :
        (b : Bool)
        → too_small most (some f) ≡ b
        → (branch b).0 ≡ allowed g
        → Granted c p limits l g (branch b)
    go true s h' = cc h'
    go false s h' =
        let same : granted ≡ g = ground arith in
        (
          cc same,
          tightest-Allows g limits f e (subst (λ n. Allows n f) same (grant-Allows most f s).0),
        )

abbrev Parts : ℕ → (xs ys zs ws : List Fit) → Type 0
Parts g xs ys zs ws = All (Allows g) xs × All (Allows g) ys × All (Allows g) zs × All (Allows g) ws

parts :
    (g : ℕ) (xs ys zs ws : List Fit) → All (Allows g) (xs ++ ys ++ zs ++ ws) → Parts g xs ys zs ws
parts g xs ys zs ws h =
    let h' = All-left (Allows g) (xs ++ ys ++ zs) ws h in
    let h'' = All-left (Allows g) (xs ++ ys) zs h' in
    (
      All-left (Allows g) xs ys h'',
      All-right (Allows g) xs ys h'',
      All-right (Allows g) (xs ++ ys) zs h',
      All-right (Allows g) (xs ++ ys ++ zs) ws h,
    )

selects_own : (n : ℕ) → (n == n) ≡ true
selects_own n = ground arith

module _ (c : Call) (b : Budget) (l : Ledger) (g : ℕ) where
  month : Charge
  month = charged (in_period c.period) l

  this_run : Charge
  this_run = charged (in_run c.run.id) l

  month_fits : List Fit
  month_fits = tokens_fit c.request Scope.monthly b.monthly_token_limit month.tokens

  run_fits : List Fit
  run_fits = tokens_fit c.request Scope.run b.run_token_limit this_run.tokens

  -- The cost limits, at a price or where there is none of them.
  Priced : Option Price → Type 0
  Priced (some p) = Unit
  Priced none = (b.monthly_cost_limit_micros ≡ none) × (b.run_cost_limit_micros ≡ none)

  IsWithin-insert :
      (p : Option Price)
      → Priced p
      → All (Allows g) (fits b p month this_run c.request)
      → IsWithin b c.period c.run.id (insert c p g l)
  unfolding Priced fits month this_run
  IsWithin-insert none (e, e') h =
      let (mt, rt, _, _) = parts g _ _ _ _ h in
      record {
        month_tokens =
            rw (charged_tokens-insert c none g l (in_period c.period) (selects_own c.period))
              (tokens-Under g c.request Scope.monthly _ _ mt);
        run_tokens =
            rw (charged_tokens-insert c none g l (in_run c.run.id) (selects_own c.run.id))
              (tokens-Under g c.request Scope.run _ _ rt);
        month_cost = rw e tt;
        run_cost = rw e' tt;
      }
  IsWithin-insert (some p) _ h =
      let (mt, rt, mc, rc) = parts g _ _ _ _ h in
      record {
        month_tokens =
            rw (charged_tokens-insert c (some p) g l (in_period c.period) (selects_own c.period))
              (tokens-Under g c.request Scope.monthly _ _ mt);
        run_tokens =
            rw (charged_tokens-insert c (some p) g l (in_run c.run.id) (selects_own c.run.id))
              (tokens-Under g c.request Scope.run _ _ rt);
        month_cost =
            rw (charged_cost-insert c p g l (in_period c.period) (selects_own c.period))
              (cost-Under g c.request p Scope.monthly_cost _ _ mc);
        run_cost =
            rw (charged_cost-insert c p g l (in_run c.run.id) (selects_own c.run.id))
              (cost-Under g c.request p Scope.run_cost _ _ rc);
      }

  -- What the guard on prices leaves.
  Priced-of :
      (p : Option Price) → (cost_limited b && not (priced_in b.currency p)) ≡ false → Priced p
  unfolding Priced
  Priced-of none h = ground arith
  Priced-of (some p) h = tt

  IsWithin-decided :
      (p : Option Price)
      → (cost_limited b && not (priced_in b.currency p)) ≡ false
      → (decide_with c p (tightest_fit c b p l) l).0 ≡ allowed g
      → (decide_with c p (tightest_fit c b p l) l ≡ (allowed g, insert c p g l))
        × IsWithin b c.period c.run.id (insert c p g l)
  unfolding Granted month this_run
  IsWithin-decided p h e =
      let (same, fit) =
        Granted-with c p (fits b p month this_run c.request) l g (tightest_fit c b p l) refl e in
      (same, IsWithin-insert p (Priced-of p h) fit)

IsWithin-decide :
    (c : Call) (l : Ledger) (g : ℕ)
    → (decide c l).0 ≡ allowed g
    → IsWithin (map_budget l.budget) c.period c.run.id (decide c l).1
unfolding decide
IsWithin-decide c l g e = go (cost_limited b && not (priced_in b.currency p)) refl e
  where
    b : Budget
    b = map_budget l.budget

    p : Option Price
    p = current c.request.provider c.request.model l.prices

    branch : Bool → Decision × Ledger
    branch d =
        if d
        then (denied Scope.price, deny c Scope.price nothing l)
        else decide_with c p (tightest_fit c b p l) l

    go :
        (d : Bool)
        → (cost_limited b && not (priced_in b.currency p)) ≡ d
        → (branch d).0 ≡ allowed g
        → IsWithin b c.period c.run.id (branch d).1
    go true h e' = cc e'
    go false h e' = let (same, fit) = IsWithin-decided c b l g p h e' in rw same fit

-- A new reservation that is allowed leaves the charged usage within the budget: the month's and the
-- run's tokens (with the whole grant charged until settlement) and, where calls have a cost, the
-- month's and the run's cost do not exceed their limits, whatever was charged before.
pub reserve-IsWithin :
    (c : Call) (l l' : Ledger) (g : ℕ)
    → find_reservation c.request.reservation_id l.reservations ≡ none
    → reserve c l ≡ ok (allowed g, l')
    → IsWithin (map_budget l.budget) c.period c.run.id l'
unfolding reserve
reserve-IsWithin c l l' g new h =
    let same : decide c l ≡ (allowed g, l') = ground arith in
    subst (IsWithin (map_budget l.budget) c.period c.run.id)
      (ap (λ (r : Decision × Ledger). r.1) same)
      (IsWithin-decide c l g (ap (λ (r : Decision × Ledger). r.0) same))
