-- ===== src/Gateway/Started.antt =====
-- apps/control-plane-api/src/actions/action-gateway.ts, `interrupt` and `prepareExecution`: what a request
-- that had no execution leaves.
use employee_agent_platform.Prelude.{
  ℕ, ◌≡◌, refl, String, Bool, true, false, ◌&&◌, not, Option, none, some, ◌∷◌, if◌then◌else◌, arith,
  subst, sym, ap, ◌∙◌, is_some,
}
use employee_agent_platform.Gateway.{
  Ledger, RunRow, ActionRequest, FailureCode, UnknownReason, find_execution, find_by,
}
use employee_agent_platform.Gateway.Registry.{Handler, Effect, reads, writes, effect, is_write}
use employee_agent_platform.Gateway.Reconcile.{Unknown, require, blocks}
use employee_agent_platform.Gateway.Assess.{assess}
use employee_agent_platform.Gateway.World.{World, Assessment, Connection}
use employee_agent_platform.Gateway.Dispatch.{
  refuse_or, connect, commit, start, option_eq, digest_of, against_decision, against_policy,
  question_of,
}
use employee_agent_platform.Gateway.Plan.{
  Plan, finished, to_dispatch, PendingDispatch, close, is_open, interrupted_at, require_if,
  interrupt, refuse, failed_row, started_row,
}
use employee_agent_platform.Gateway.Awaited.{Stays, Stays-same}
use employee_agent_platform.Gateway.Books.{require-executions}
use employee_agent_platform.Gateway.Executions.{
  Keeps, Keeps-refl, Keeps-trans, Keeps-same, Keeps-new, Keeps-close,
}

pub Keeps-require : (u : Unknown) (now : ℕ) (l : Ledger) → Keeps l (require u now l)
Keeps-require u now l = Keeps-same l (require u now l) (require-executions u now l).0

Keeps-require_if :
    (w : World) (x : Effect) (why : UnknownReason) (id run_id : ℕ) (action : String) (p : Option ℕ)
    (now : ℕ) (l : Ledger)
    → Keeps l (require_if w x why id run_id action p now l)
unfolding require_if
Keeps-require_if w writes why id run_id action (some p) now l = Keeps-require _ now l
Keeps-require_if w writes why id run_id action none now l = Keeps-refl l
Keeps-require_if w reads why id run_id action p now l = Keeps-refl l

pub Keeps-if : (b : Bool) (l m n : Ledger) → Keeps l m → Keeps l n → Keeps l (if b then m else n)
Keeps-if true l m n h k = h
Keeps-if false l m n h k = k

pub Keeps-interrupt :
    (w : World) (x : Effect) (q : ActionRequest) (run_id now : ℕ) (l : Ledger)
    → Keeps l (interrupt w x q run_id now l)
unfolding interrupt
Keeps-interrupt w x q run_id now l =
    Keeps-if (is_open q.id l) l _ l
      (Keeps-trans l closed _ (Keeps-close q.id (interrupted_at now) (λ e. refl) l) (
        Keeps-require_if w x UnknownReason.was_interrupted q.id run_id q.action q.parameters now
          closed))
      (Keeps-refl l)
  where
    closed : Ledger
    closed = close q.id (interrupted_at now) l

-- What a call leaves: the executions, and if it commits to a dispatch, a row that was not there.
pub record Prepares (l : Ledger) (p : Plan × Ledger) : Type 0 where
  pub keeps : Keeps l p.1
  pub stays : Stays l p.1
  pub fresh : (d : PendingDispatch) → p.0 ≡ to_dispatch d → find_execution d.request_id l ≡ none
  pub recorded :
      (d : PendingDispatch) → p.0 ≡ to_dispatch d → is_some (find_execution d.request_id p.1) ≡ true

module _ (q : ActionRequest) (l : Ledger) (free : find_execution q.id l ≡ none) where
  Prepares-refuse : (code : FailureCode) (run_id now : ℕ) → Prepares l (refuse code q run_id now l)
  unfolding refuse
  Prepares-refuse code run_id now = record {
    keeps = Keeps-new (failed_row q.id run_id code now) l free;
    stays = Stays-same l _ refl;
    fresh = λ d e. cc;
    recorded = λ d e. cc;
  }

  Prepares-refuse_or :
      (o : Option FailureCode) (run : RunRow) (now : ℕ) (next : Plan × Ledger)
      → Prepares l next
      → Prepares l (refuse_or o q run now l next)
  unfolding refuse_or
  Prepares-refuse_or none run now next h = h
  Prepares-refuse_or (some code) run now next h = Prepares-refuse code run.id now

  Prepares-if :
      (b : Bool) (p n : Plan × Ledger)
      → Prepares l p
      → Prepares l n
      → Prepares l (if b then p else n)
  Prepares-if true p n h k = h
  Prepares-if false p n h k = k

  Prepares-dispatch :
      (d : PendingDispatch) (run_id c now : ℕ)
      → d.request_id ≡ q.id
      → Prepares l
          (to_dispatch d, record l { executions = started_row q.id run_id c now ∷ l.executions })
  unfolding find_by
  Prepares-dispatch d run_id c now same = record {
    keeps = Keeps-new (started_row q.id run_id c now) l free;
    stays = Stays-same l _ refl;
    fresh = λ d' e. ap (λ n. find_execution n l) (id_of d' e) ∙ free;
    recorded = λ d' e.
        subst
          (λ n.
            is_some (
              find_execution n
                (record l { executions = started_row q.id run_id c now ∷ l.executions }))
            ≡ true)
          (sym (id_of d' e)) (ground arith);
  }
    where
      id_of : (d' : PendingDispatch) → to_dispatch d ≡ to_dispatch d' → d'.request_id ≡ q.id
      id_of d' e = ap request_of (sym e) ∙ same
        where
          request_of : Plan → ℕ
          request_of (to_dispatch x) = x.request_id
          request_of (finished r) = q.id

  Prepares-commit :
      (w : World) (run : RunRow) (h : Handler) (v : Assessment) (c : Connection) (p now : ℕ)
      → Prepares l (commit w run q h v c p now l)
  unfolding commit
  Prepares-commit w run h v c p now =
      Prepares-if (not (option_eq (digest_of q.change_set) (digest_of v.changes))) _ _
        (Prepares-refuse FailureCode.change_set_changed run.id now)
        (Prepares-if (is_write (effect h) && blocks run.state.thread_id q.action (w.digest p) l) _ _
          (Prepares-refuse FailureCode.reconciliation_required run.id now)
          (Prepares-if (not (w.has_secret c.secret_ref)) _ _
            (Prepares-refuse FailureCode.secret_unresolved run.id now)
            (Prepares-dispatch _ run.id c.id now refl)))

  Prepares-connect :
      (w : World) (run : RunRow) (h : Handler) (v : Assessment) (c : Option Connection)
      (p : Option ℕ) (now : ℕ)
      → Prepares l (connect w run q h v c p now l)
  unfolding connect
  Prepares-connect w run h v (some c) (some p) now = Prepares-commit w run h v c p now
  Prepares-connect w run h v (some c) none now =
      Prepares-refuse FailureCode.connector_not_configured run.id now
  Prepares-connect w run h v none p now =
      Prepares-refuse FailureCode.connector_not_configured run.id now

  pub Prepares-start :
      (w : World) (run : RunRow) (h : Handler) (now : ℕ) → Prepares l (start w run q h now l)
  unfolding start
  Prepares-start w run h now = Prepares-refuse_or (against_decision q.decision q now l) run now _ (
      Prepares-refuse_or (against_policy v.outcome q.decision) run now _
        (Prepares-connect w run h v v.connection v.parameters now))
    where
      v : Assessment
      v = assess w run (question_of q) l
