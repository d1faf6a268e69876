-- ===== src/Spending/Settle/Charges.antt =====
-- apps/control-plane-api/src/spending/model-spending-service.ts: what a settlement does to the charges.
use employee_agent_platform.Prelude.{
  ℕ, ◌+◌, ◌≡◌, refl, ◌&&◌, Option, none, some, List, [], ◌∷◌, ◌==◌, if◌then◌else◌, arith,
  Option-cases, inl, inr,
}
use employee_agent_platform.Prelude.Result.{Result, ok, err}
use employee_agent_platform.Spending.Ledger.{
  Ledger, Reservation, Usage, find_reservation, Selection, selects, sum_tokens, charged,
}
use employee_agent_platform.Spending.Reserve.{SpendingError, reservation_settled}
use employee_agent_platform.Spending.Reserve.Limits.{reservations-check_alerts}
use employee_agent_platform.Spending.Settle.{
  Settlement, settle, settle_found, settle_rows, settle_row, settled_cost, usage_of,
}

-- The identifier is the table's primary key.
abbrev pub IsKeyed : List Reservation → Type 0
IsKeyed [] = Unit
IsKeyed (r ∷ rest) = (find_reservation r.id rest ≡ none) × IsKeyed rest

find-settle_rows :
    (s : Settlement) (cost : Option ℕ) (id : ℕ) (l : List Reservation)
    → find_reservation id (settle_rows s cost l)
      ≡ elim (find_reservation id l) [ none ↦ none | some r ↦ some (settle_row s cost r) ]
unfolding find_reservation settle_rows
find-settle_rows s cost id [] = refl
find-settle_rows s cost id (r ∷ l) = ground (arith, find-settle_rows s cost id l)

settle_rows_absent :
    (s : Settlement) (cost : Option ℕ) (w : Selection) (l : List Reservation)
    → find_reservation s.reservation_id l ≡ none
    → sum_tokens w (settle_rows s cost l) ≡ sum_tokens w l
unfolding find_reservation settle_rows sum_tokens
settle_rows_absent s cost w [] h = refl
settle_rows_absent s cost w (r ∷ l) h = ground (arith, settle_rows_absent s cost w l)

-- In the sums that select it, the row's reserved tokens give way to the reported ones.
sum-settle_rows :
    (s : Settlement) (cost : Option ℕ) (w : Selection) (l : List Reservation) (r : Reservation)
    → IsKeyed l
    → find_reservation s.reservation_id l ≡ some r
    → r.settled ≡ none
    → sum_tokens w (settle_rows s cost l) + (if selects w r then r.reserved_tokens else 0)
      ≡ sum_tokens w l + (if selects w r then s.input_tokens + s.output_tokens else 0)
unfolding find_reservation settle_rows sum_tokens
sum-settle_rows s cost w [] r k h e = ground arith
sum-settle_rows s cost w (x ∷ l) r k h e =
    ground (arith, sum-settle_rows s cost w l r k.1, settle_rows_absent s cost w l)

settle_found_cost :
    (s : Settlement) (r : Reservation) (l l' : Ledger)
    → r.settled ≡ none
    → settle_found s r l ≡ ok l'
    → (cost : Option ℕ) × (l'.reservations ≡ settle_rows s cost l.reservations)
unfolding settle_found
settle_found_cost s r l l' e h = go (settled_cost s r.price_id l.prices) refl
  where
    go :
        (c : Result SpendingError (Option ℕ))
        → settled_cost s r.price_id l.prices ≡ c
        → (cost : Option ℕ) × (l'.reservations ≡ settle_rows s cost l.reservations)
    go (err x) same = absurd (ground arith)
    go (ok cost) same = (
      cost,
      ground (
        arith,
        reservations-check_alerts s.runtime_id r.period s.now_ms s.new_id
            (record l { reservations = settle_rows s cost l.reservations }),
      ),
    )

-- The first settlement of a reservation replaces its reserved size, in every sum that selects it, by
-- the tokens that were reported; the other reservations count as before.
pub settle_charges :
    (s : Settlement) (w : Selection) (l l' : Ledger) (r : Reservation)
    → IsKeyed l.reservations
    → find_reservation s.reservation_id l.reservations ≡ some r
    → r.settled ≡ none
    → settle s l ≡ ok l'
    → (charged w l').tokens + (if selects w r then r.reserved_tokens else 0)
      ≡ (charged w l).tokens + (if selects w r then s.input_tokens + s.output_tokens else 0)
unfolding settle charged
settle_charges s w l l' r k h e d =
    let (cost, same) = settle_found_cost s r l l' e (rw (h, settle) at d) in
    rw same (sum-settle_rows s cost w l.reservations r k h e)

find_reservation_id :
    (id : ℕ) (l : List Reservation) (r : Reservation) → find_reservation id l ≡ some r → r.id ≡ id
unfolding find_reservation
find_reservation_id id [] r h = ground arith
find_reservation_id id (x ∷ l) r h = ground (arith, find_reservation_id id l r)

-- After a successful settlement the reservation is there, owned, and settled with what was reported.
Settled : Settlement → Ledger → Type 0
Settled s l =
    (r : Reservation) × (u : Usage) × (find_reservation s.reservation_id l.reservations ≡ some r)
    × (r.run_id ≡ s.run_id)
    × (r.runtime_id ≡ s.runtime_id)
    × (r.settled ≡ some u)
    × (u.input_tokens ≡ s.input_tokens)
    × (u.output_tokens ≡ s.output_tokens)

settled_first :
    (s : Settlement) (l l' : Ledger) (r : Reservation)
    → find_reservation s.reservation_id l.reservations ≡ some r
    → r.settled ≡ none
    → settle_found s r l ≡ ok l'
    → Settled s l'
unfolding Settled
settled_first s l l' r h e d =
    let (cost, same) = settle_found_cost s r l l' e d in
    (
      settle_row s cost r,
      usage_of s cost,
      ground (arith, find-settle_rows s cost s.reservation_id l.reservations),
      unfold settle_found in ground arith,
      unfold settle_found in ground arith,
      ground (arith, find_reservation_id s.reservation_id l.reservations r),
      refl,
      refl,
    )

Settled-found :
    (s : Settlement) (l l' : Ledger) (r : Reservation)
    → find_reservation s.reservation_id l.reservations ≡ some r
    → settle_found s r l ≡ ok l'
    → Settled s l'
Settled-found s l l' r h d = elim (Option-cases r.settled) [
  | inl e ↦ settled_first s l l' r h e d
  | inr (u, e) ↦
      unfold Settled settle_found in
      (r, u, ground arith, ground arith, ground arith, e, ground arith, ground arith)
]

settle-Settled : (s : Settlement) (l l' : Ledger) → settle s l ≡ ok l' → Settled s l'
unfolding settle
settle-Settled s l l' h = elim (Option-cases (find_reservation s.reservation_id l.reservations)) [
  | inl e ↦ absurd (ground arith)
  | inr (r, e) ↦ Settled-found s l l' r e (rw (e, settle) at h)
]

-- Once a settlement has succeeded, to send it again changes nothing, and to report other numbers for
-- the same reservation is refused.
pub settle_again :
    (s s' : Settlement) (l l' : Ledger)
    → settle s l ≡ ok l'
    → s'.reservation_id ≡ s.reservation_id
    → s'.run_id ≡ s.run_id
    → s'.runtime_id ≡ s.runtime_id
    → settle s' l' ≡ (
        if s.input_tokens == s'.input_tokens && s.output_tokens == s'.output_tokens
        then ok l'
        else err reservation_settled)
unfolding settle settle_found Settled
settle_again s s' l l' h e run runtime =
    let (r, u, found, own, by, done, ins, outs) = settle-Settled s l l' h in ground arith
