-- ===== src/Gateway/System/Unresolved.antt =====
-- apps/control-plane-api/src/actions: sequences of calls while a write waits for a person.
use employee_agent_platform.Prelude.{
  and_left, and_right, and_intro, ==_iff, eq_iff, Bool-cases, inl, inr, ℕ, ◌≡◌, refl, String, Bool,
  true, false, ◌&&◌, not, List, [], ◌∷◌, all, ◌==◌, str_eq, if◌then◌else◌, arith, subst, sym, ap,
  ◌∙◌,
}
use employee_agent_platform.Prelude.Result.{Result, ok, err, Post, Post-map, Post-ok}
use employee_agent_platform.Execution.{Stamp}
use employee_agent_platform.Gateway.{Ledger, RunRow, Grant, ActionRequest, GatewayError}
use employee_agent_platform.Gateway.Registry.{effect, is_write}
use employee_agent_platform.Gateway.Reconcile.{blocks}
use employee_agent_platform.Gateway.World.{World}
use employee_agent_platform.Gateway.Decide.{decide, expire_due}
use employee_agent_platform.Gateway.Dispatch.{prepare_execution}
use employee_agent_platform.Gateway.Plan.{Plan, finished, to_dispatch, PendingDispatch, Reply}
use employee_agent_platform.Gateway.Complete.{dispatch, complete_execution, reconcile_interrupted}
use employee_agent_platform.Gateway.Grants.{issue_grant}
use employee_agent_platform.Gateway.Books.{expire_due-SameBooks}
use employee_agent_platform.Gateway.Work.{decide-SameWork, issue_grant-SameWork}
use employee_agent_platform.Gateway.Awaited.{
  awaits, Stays, Stays-refl, Stays-trans, Stays-same, Stays-complete_execution,
  Stays-interrupt_rows, blocks-awaits,
}
use employee_agent_platform.Gateway.Authorized.{prepare_execution_authorized}
use employee_agent_platform.Gateway.Committed.{Authorized}
use employee_agent_platform.Gateway.Calls.{Prepares-prepare_execution}
use employee_agent_platform.Gateway.Started.{Prepares}
use employee_agent_platform.Gateway.System.{
  System, Call, decides, prepares, completes, interrupts, issues, resolves, expires, others,
  committed, planned, replied, issued, perform, perform_all,
}

-- The dispatches of a write with this payload.
abbrev pub is_repeat : String → ℕ → PendingDispatch → Bool
is_repeat action digest d =
    str_eq d.action action && (d.payload_digest == digest && is_write (effect d.handler))

unfoldable pub repeats : String → ℕ → List PendingDispatch → List PendingDispatch
repeats action digest [] = []
repeats action digest (d ∷ l) =
    let rest = repeats action digest l in if is_repeat action digest d then d ∷ rest else rest

-- The call by which a person says what became of a write.
abbrev pub is_answer : Call → Bool
is_answer (resolves id v) = true
is_answer (decides w run s m) = false
is_answer (prepares w run id step_id stale s) = false
is_answer (completes d a now) = false
is_answer (interrupts w room stale now) = false
is_answer (issues w run id i) = false
is_answer (expires s) = false
is_answer (others runs approvals) = false

-- What a call that is no answer keeps.
record Waits (y y' : System) : Type 0 where
  stays : Stays y.ledger y'.ledger
  same :
      (action : String) (digest : ℕ)
      → awaits action digest y.ledger ≡ true
      → repeats action digest y'.sent ≡ repeats action digest y.sent

Waits-refl : (y : System) → Waits y y
Waits-refl y = record { stays = Stays-refl y.ledger; same = λ a d h. refl }

Waits-trans : (x y z : System) → Waits x y → Waits y z → Waits x z
Waits-trans x y z h k = record {
  stays = Stays-trans x.ledger y.ledger z.ledger h.stays k.stays;
  same = λ a d e. k.same a d (h.stays.at a d e) ∙ h.same a d e;
}

Waits-Stays : (y : System) (l : Ledger) → Stays y.ledger l → Waits y (record y { ledger = l })
Waits-Stays y l h = record { stays = h; same = λ a d k. refl }

Waits-committed :
    (m : Result GatewayError Ledger) (y : System)
    → Post (λ l. l.reconciliations ≡ y.ledger.reconciliations) m
    → Waits y (committed m y)
Waits-committed (ok l) y h = Waits-Stays y l (Stays-same y.ledger l h.holds)
Waits-committed (err e) y h = Waits-refl y

Waits-issued :
    (m : Result GatewayError (Grant × Ledger)) (y : System)
    → Post (λ r. r.1.reconciliations ≡ y.ledger.reconciliations) m
    → Waits y (issued m y)
Waits-issued (ok (g, l)) y h = Waits-Stays y l (Stays-same y.ledger l h.holds)
Waits-issued (err e) y h = Waits-refl y

Waits-replied :
    (m : Result GatewayError (Reply × Ledger)) (y : System)
    → Post (λ r. Stays y.ledger r.1) m
    → Waits y (replied m y)
Waits-replied (ok (r, l)) y h = Waits-Stays y l h.holds
Waits-replied (err e) y h = Waits-refl y

-- A dispatch that is authorized while a write waits is not of that write.
Authorized-new :
    (w : World) (run : RunRow) (q : ActionRequest) (now : ℕ) (l : Ledger) (d : PendingDispatch)
    (action : String) (digest : ℕ)
    → Authorized w run q now l d
    → awaits action digest l ≡ true
    → is_repeat action digest d ≡ false
Authorized-new w run q now l d action digest h k = elim (Bool-cases (is_repeat action digest d)) [
  | inr n ↦ n
  | inl y ↦ absurd (clash y)
]
  where
    clash : is_repeat action digest d ≡ true → ⊥
    clash y =
        let a = (eq_iff d.action action).0 (and_left _ _ y) in
        let z = and_right (str_eq d.action action) _ y in
        let n = (==_iff d.payload_digest digest).0 (and_left _ _ z) in
        let x = and_right (d.payload_digest == digest) _ z in
        let b =
          subst (λ s. blocks run.state.thread_id s digest l ≡ true) (sym a ∙ h.action)
            (blocks-awaits run.state.thread_id action digest l k) in
        let c = subst (λ t. blocks run.state.thread_id q.action t l ≡ true) (sym n ∙ h.digest) b in
        let e : true ≡ false = sym (and_intro x c) ∙ h.not_blocked in cc

Waits-planned :
    (m : Result GatewayError (Plan × Ledger)) (y : System)
    → Post (Prepares y.ledger) m
    → ((d : PendingDispatch) (l : Ledger)
        → m ≡ ok (to_dispatch d, l)
        → (action : String) (digest : ℕ) → awaits action digest y.ledger ≡ true
        → is_repeat action digest d ≡ false)
    → Waits y (planned m y)
unfolding repeats
Waits-planned (ok (finished r, l)) y h k = Waits-Stays y l h.holds.stays
Waits-planned (ok (to_dispatch d, l)) y h k = record {
  stays = h.holds.stays;
  same = λ a n x.
      ap (λ b. if b then d ∷ repeats a n y.sent else repeats a n y.sent) (k d l refl a n x);
}
Waits-planned (err e) y h k = Waits-refl y

prepared-new :
    (w : World) (run : RunRow) (id step_id stale : ℕ) (s : Stamp) (y : Ledger) (d : PendingDispatch)
    (l : Ledger)
    → prepare_execution w run id step_id stale s y ≡ ok (to_dispatch d, l)
    → (action : String) (digest : ℕ) → awaits action digest y ≡ true
    → is_repeat action digest d ≡ false
prepared-new w run id step_id stale s y d l e action digest h =
    let (l₁, swept, g) = prepare_execution_authorized w run id step_id stale s y l d e in
    let same = Post-ok _ l₁ (expire_due-SameBooks s y) swept in
    Authorized-new w run g.0 s.now l₁ d action digest g.4
      ((Stays-same y l₁ same.0.reconciliations).at action digest h)

Waits-perform : (c : Call) (y : System) → is_answer c ≡ false → Waits y (perform c y)
unfolding perform reconcile_interrupted
Waits-perform (decides w run s m) y h =
    Waits-committed (decide w run s m y.ledger) y
      (Post-map _ (λ l h. h.reconciliations) (decide-SameWork w run s m y.ledger))
Waits-perform (prepares w run id step_id stale s) y h =
    Waits-planned (prepare_execution w run id step_id stale s y.ledger) y
      (Prepares-prepare_execution w run id step_id stale s y.ledger)
      (prepared-new w run id step_id stale s y.ledger)
Waits-perform (completes d a now) y h =
    Waits-replied (complete_execution d (dispatch d a) now y.ledger) y
      (Stays-complete_execution d (dispatch d a) now y.ledger)
Waits-perform (interrupts w room stale now) y h =
    Waits-Stays y _ (Stays-interrupt_rows w now _ y.ledger)
Waits-perform (issues w run id i) y h =
    Waits-issued (issue_grant w run id i y.ledger) y
      (Post-map _ (λ r h. h.reconciliations) (issue_grant-SameWork w run id i y.ledger))
Waits-perform (resolves id v) y h = absurd (cc)
Waits-perform (expires s) y h =
    Waits-committed (expire_due s y.ledger) y
      (Post-map _ (λ l h. h.0.reconciliations) (expire_due-SameBooks s y.ledger))
Waits-perform (others runs approvals) y h =
    Waits-Stays y _
      (Stays-same y.ledger (record y.ledger { runs = runs; approvals = approvals }) refl)

Waits-all :
    (l : List Call) (y : System) → all (λ c. not (is_answer c)) l ≡ true → Waits y (perform_all l y)
unfolding perform_all
Waits-all [] y h = Waits-refl y
Waits-all (c ∷ l) y h =
    Waits-trans y (perform c y) _
      (Waits-perform c y (ground (arith, and_left (not (is_answer c)) _ h)))
      (Waits-all l (perform c y) (and_right (not (is_answer c)) _ h))

-- While a write of an action waits for a person to say what became of it, no sequence of calls in
-- which nobody gives an answer sends a write of that action with that payload again, in any thread of
-- the organization.
pub perform_all_never_repeats :
    (l : List Call) (y : System) (action : String) (digest : ℕ)
    → awaits action digest y.ledger ≡ true
    → all (λ c. not (is_answer c)) l ≡ true
    → repeats action digest (perform_all l y).sent ≡ repeats action digest y.sent
perform_all_never_repeats l y action digest h k = (Waits-all l y k).same action digest h
