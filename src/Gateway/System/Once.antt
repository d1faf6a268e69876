-- ===== src/Gateway/System/Once.antt =====
-- apps/control-plane-api/src/actions: the dispatches and the executions that a sequence of calls
-- leaves.
use employee_agent_platform.Prelude.{
  ◌⊎◌, and_left, and_right, and_intro, ==_iff, Bool-cases, inl, inr, ℕ, ◌≡◌, refl, Bool, true,
  false, ◌&&◌, not, Option, none, some, List, [], ◌∷◌, ◌==◌, all, map, subst, ap, ◌∙◌, is_some,
}
use employee_agent_platform.Prelude.Result.{
  Result, ok, err, Post, Post-if, Post-option, Post-map, Post-value, Post-error,
}
use employee_agent_platform.Gateway.{
  Ledger, Grant, ActionExecution, GatewayError, is_dispatching, find_execution, is_required,
}
use employee_agent_platform.Gateway.Reconcile.{Verification, resolve, find_reconciliation}
use employee_agent_platform.Gateway.Decide.{decide, expire_due}
use employee_agent_platform.Gateway.Dispatch.{prepare_execution}
use employee_agent_platform.Gateway.Plan.{Plan, finished, to_dispatch, PendingDispatch, Reply}
use employee_agent_platform.Gateway.Complete.{dispatch, complete_execution, reconcile_interrupted}
use employee_agent_platform.Gateway.Grants.{issue_grant}
use employee_agent_platform.Gateway.Books.{expire_due-SameBooks}
use employee_agent_platform.Gateway.Executions.{Follows, Keeps, Keeps-refl, Keeps-trans, Keeps-same}
use employee_agent_platform.Gateway.Calls.{
  Prepares-prepare_execution, Keeps-complete_execution, Keeps-interrupt_rows,
}
use employee_agent_platform.Gateway.Started.{Prepares}
use employee_agent_platform.Gateway.System.{
  System, Call, decides, prepares, completes, interrupts, issues, resolves, expires, others,
  committed, planned, replied, issued, perform, perform_all,
}
use employee_agent_platform.Gateway.Work.{decide-SameWork, issue_grant-SameWork}

resolve-executions :
    (id : ℕ) (v : Verification) (l : Ledger)
    → Post (λ l'. l'.executions ≡ l.executions) (resolve id v l)
unfolding resolve
resolve-executions id v l =
    Post-option (find_reconciliation id l) _ _ (λ _. Post-error _)
      (λ x _. Post-if (is_required x.state) _ _ (λ _. Post-value _ refl) (λ _. Post-error _))

-- What holds between two calls: every dispatch has its execution, and no two are of one request.
abbrev pub distinct : List ℕ → Bool
distinct [] = true
distinct (x ∷ l) = all (λ y. not (y == x)) l && distinct l

abbrev pub ids : List PendingDispatch → List ℕ
ids l = map (λ d. d.request_id) l

abbrev has_execution : Ledger → ℕ → Bool
has_execution l id = is_some (find_execution id l)

record IsOnce (y : System) : Type 0 where
  once : distinct (ids y.sent) ≡ true
  recorded : all (has_execution y.ledger) (ids y.sent) ≡ true

has_execution-Keeps :
    (l l' : Ledger) (id : ℕ) → Keeps l l' → has_execution l id ≡ true → has_execution l' id ≡ true
has_execution-Keeps l l' id k h = kept (find_execution id l) (find_execution id l') (k.at id) h
  where
    kept : (o o' : Option ActionExecution) → Follows o o' → is_some o ≡ true → is_some o' ≡ true
    kept none o' f h = absurd (cc)
    kept (some e) none f h = elim f [ ]
    kept (some e) (some e') f h = refl

all_executions-Keeps :
    (l l' : Ledger) (x : List ℕ)
    → Keeps l l'
    → all (has_execution l) x ≡ true
    → all (has_execution l') x ≡ true
all_executions-Keeps l l' [] k h = refl
all_executions-Keeps l l' (id ∷ x) k h =
    and_intro (has_execution-Keeps l l' id k (and_left (has_execution l id) _ h))
      (all_executions-Keeps l l' x k (and_right (has_execution l id) _ h))

none_of :
    (l : Ledger) (id : ℕ) (x : List ℕ)
    → find_execution id l ≡ none
    → all (has_execution l) x ≡ true
    → all (λ y. not (y == id)) x ≡ true
none_of l id [] free h = refl
none_of l id (y ∷ x) free h =
    and_intro (differs (Bool-cases (y == id)))
      (none_of l id x free (and_right (has_execution l y) _ h))
  where
    differs : ((y == id) ≡ true) ⊎ ((y == id) ≡ false) → not (y == id) ≡ true
    differs (inl e) =
        absurd
          (clash (ap (λ n. is_some (find_execution n l)) ((==_iff y id).0 e) ∙ ap is_some free))
      where
        clash : has_execution l y ≡ false → ⊥
        clash k = cc (and_left (has_execution l y) _ h)
    differs (inr e) = ap not e

IsOnce-Keeps :
    (y : System) (l : Ledger) → Keeps y.ledger l → IsOnce y → IsOnce (record y { ledger = l })
IsOnce-Keeps y l k h = record {
  once = h.once;
  recorded = all_executions-Keeps y.ledger l (ids y.sent) k h.recorded;
}

-- A call keeps the executions, and the dispatches stay apart.
record Goes (y y' : System) : Type 0 where
  keeps : Keeps y.ledger y'.ledger
  once : IsOnce y → IsOnce y'

Goes-Keeps : (y : System) (l : Ledger) → Keeps y.ledger l → Goes y (record y { ledger = l })
Goes-Keeps y l k = record { keeps = k; once = IsOnce-Keeps y l k }

Goes-refl : (y : System) → Goes y y
Goes-refl y = record { keeps = Keeps-refl y.ledger; once = λ h. h }

Goes-committed :
    (m : Result GatewayError Ledger) (y : System)
    → Post (λ l. l.executions ≡ y.ledger.executions) m
    → Goes y (committed m y)
Goes-committed (ok l) y h = Goes-Keeps y l (Keeps-same y.ledger l h.holds)
Goes-committed (err e) y h = Goes-refl y

Goes-issued :
    (m : Result GatewayError (Grant × Ledger)) (y : System)
    → Post (λ r. r.1.executions ≡ y.ledger.executions) m
    → Goes y (issued m y)
Goes-issued (ok (g, l)) y h = Goes-Keeps y l (Keeps-same y.ledger l h.holds)
Goes-issued (err e) y h = Goes-refl y

Goes-replied :
    (m : Result GatewayError (Reply × Ledger)) (y : System)
    → Post (λ r. Keeps y.ledger r.1) m
    → Goes y (replied m y)
Goes-replied (ok (r, l)) y h = Goes-Keeps y l h.holds
Goes-replied (err e) y h = Goes-refl y

Goes-planned :
    (m : Result GatewayError (Plan × Ledger)) (y : System)
    → Post (Prepares y.ledger) m
    → Goes y (planned m y)
Goes-planned (ok (finished r, l)) y h = Goes-Keeps y l h.holds.keeps
Goes-planned (ok (to_dispatch d, l)) y h = record {
  keeps = h.holds.keeps;
  once = λ o. record {
    once =
        and_intro (none_of y.ledger d.request_id (ids y.sent) (h.holds.fresh d refl) o.recorded)
          o.once;
    recorded =
        and_intro (h.holds.recorded d refl)
          (all_executions-Keeps y.ledger l (ids y.sent) h.holds.keeps o.recorded);
  };
}
Goes-planned (err e) y h = Goes-refl y

Goes-perform : (c : Call) (y : System) → Goes y (perform c y)
unfolding perform reconcile_interrupted
Goes-perform (decides w run s m) y =
    Goes-committed (decide w run s m y.ledger) y
      (Post-map _ (λ l h. h.executions) (decide-SameWork w run s m y.ledger))
Goes-perform (prepares w run id step_id stale s) y =
    Goes-planned (prepare_execution w run id step_id stale s y.ledger) y
      (Prepares-prepare_execution w run id step_id stale s y.ledger)
Goes-perform (completes d a now) y =
    Goes-replied (complete_execution d (dispatch d a) now y.ledger) y
      (Keeps-complete_execution d (dispatch d a) now y.ledger)
Goes-perform (interrupts w room stale now) y =
    Goes-Keeps y _ (Keeps-interrupt_rows w now _ y.ledger)
Goes-perform (issues w run id i) y =
    Goes-issued (issue_grant w run id i y.ledger) y
      (Post-map _ (λ r h. h.executions) (issue_grant-SameWork w run id i y.ledger))
Goes-perform (resolves id v) y =
    Goes-committed (resolve id v y.ledger) y (resolve-executions id v y.ledger)
Goes-perform (expires s) y =
    Goes-committed (expire_due s y.ledger) y
      (Post-map _ (λ l h. h.0.executions) (expire_due-SameBooks s y.ledger))
Goes-perform (others runs approvals) y =
    Goes-Keeps y _
      (Keeps-same y.ledger (record y.ledger { runs = runs; approvals = approvals }) refl)

Goes-all : (l : List Call) (y : System) → Goes y (perform_all l y)
unfolding perform_all
Goes-all [] y = Goes-refl y
Goes-all (c ∷ l) y = record {
  keeps = Keeps-trans y.ledger (perform c y).ledger _ first.keeps (Goes-all l (perform c y)).keeps;
  once = λ h. (Goes-all l (perform c y)).once (first.once h);
}
  where
    first : Goes y (perform c y)
    first = Goes-perform c y

-- Whatever calls are made from when nothing has been sent, in any order and with any failures,
-- policies and decisions of people in between: no request is dispatched twice.
pub perform_all_dispatches_once :
    (l : List Call) (y : System) → y.sent ≡ [] → distinct (ids (perform_all l y).sent) ≡ true
perform_all_dispatches_once l y e =
    ((Goes-all l y).once (record {
      once = ap (λ s. distinct (ids s)) e;
      recorded = ap (λ s. all (has_execution y.ledger) (ids s)) e;
    })).once

-- An execution that has ended is the same after any further calls.
pub perform_all_keeps_ended :
    (l : List Call) (y : System) (id : ℕ) (e : ActionExecution)
    → find_execution id y.ledger ≡ some e
    → is_dispatching e.status ≡ false
    → find_execution id (perform_all l y).ledger ≡ some e
perform_all_keeps_ended l y id e h d = kept (find_execution id (perform_all l y).ledger) refl (
    subst (λ o. Follows o (find_execution id (perform_all l y).ledger)) h
      ((Goes-all l y).keeps.at id))
  where
    kept :
        (o : Option ActionExecution)
        → find_execution id (perform_all l y).ledger ≡ o
        → Follows (some e) (find_execution id (perform_all l y).ledger)
        → find_execution id (perform_all l y).ledger ≡ some e
    kept none q f = elim (subst (Follows (some e)) q f) [ ]
    kept (some e') q f = q ∙ ap some (subst (Follows (some e)) q f d)
