-- ===== src/Gateway/Authorized.antt =====
-- apps/control-plane-api/src/actions/action-gateway.ts, `prepareExecution`: what has been checked when the
-- gateway commits to a dispatch.
use employee_agent_platform.Prelude.{
  ℕ, ◌+◌, Bool-cases, ◌≡◌, inl, inr, refl, not, Option, none, some, ◌==◌, ltb, if◌then◌else◌, arith,
  sym, ap, ◌∙◌, ==_iff,
}
use employee_agent_platform.Prelude.Result.{
  Result, ok, err, ◌>>=◌, Post, Post-if, Post-map, Post-ok, Post-value, Post-error,
}
use employee_agent_platform.Execution.{Stamp}
use employee_agent_platform.Gateway.{
  Ledger, RunRow, ActionRequest, ActionExecution, GatewayError, is_dispatching, find_execution,
  find_request,
}
use employee_agent_platform.Gateway.Registry.{Handler, effect, control_plane_action}
use employee_agent_platform.Gateway.World.{World}
use employee_agent_platform.Gateway.Decide.{expire_due}
use employee_agent_platform.Gateway.Dispatch.{
  start, stored, resume, start_or_resume, with_handler, for_step, own_request, prepare_execution,
}
use employee_agent_platform.Gateway.Plan.{
  Plan, finished, to_dispatch, PendingDispatch, interrupt, stored_execution,
}
use employee_agent_platform.Gateway.Committed.{Authorized, start-Authorized}

abbrev Checks : World → RunRow → ActionRequest → ℕ → Ledger → Plan × Ledger → Type 0
Checks w run q now l p = (d : PendingDispatch) → p.0 ≡ to_dispatch d → Authorized w run q now l d

start_or_resume-Checks :
    (w : World) (run : RunRow) (q : ActionRequest) (h : Handler) (stale now : ℕ) (l : Ledger)
    → control_plane_action q.action ≡ some h
    → Post (Checks w run q now l) (start_or_resume w run q h stale now l)
unfolding start_or_resume resume
start_or_resume-Checks w run q h stale now l known = begun (find_execution q.id l) refl
  where
    told :
        (o : Option ActionExecution) (l' : Ledger)
        → Post (Checks w run q now l) (elim o [
          | none ↦ err GatewayError.row_missing
          | some e ↦ ok (finished (stored_execution e), l')
        ])
    told none l' = Post-error _
    told (some e) l' = Post-value _ (λ d x. cc)

    begun :
        (o : Option ActionExecution)
        → find_execution q.id l ≡ o
        → Post
            (Checks w run q now l)
            (elim o [ some e ↦ resume w run q h e stale now l | none ↦ ok (start w run q h now l) ])
    begun none free = Post-value _ (λ d x. start-Authorized w run q h now l d known free x)
    begun (some e) x =
        Post-if (not (is_dispatching e.status)) (ok (finished (stored_execution e), l)) _
          (λ _. Post-value _ (λ d y. cc))
          (λ _.
            Post-if (ltb now (e.started_at + stale)) _
              (stored q.id (interrupt w (effect h) q run.id now l)) (λ _. Post-error _)
              (λ _. told (find_execution q.id (interrupt w (effect h) q run.id now l)) _))

with_handler-Checks :
    (w : World) (run : RunRow) (q : ActionRequest) (o : Option Handler) (stale now : ℕ) (l : Ledger)
    → control_plane_action q.action ≡ o
    → Post (Checks w run q now l) (with_handler w run q o stale now l)
unfolding with_handler
with_handler-Checks w run q none stale now l known = Post-error _
with_handler-Checks w run q (some h) stale now l known =
    start_or_resume-Checks w run q h stale now l known

-- A dispatch is that of a request of this run and this step, and is authorized now.
abbrev pub Grounded :
    World → RunRow → (request_id step_id now : ℕ) → Ledger → PendingDispatch → Type 0
Grounded w run id step_id now l d =
    (q : ActionRequest) × (find_request id l ≡ some q)
    × (q.run_id ≡ run.id)
    × (q.step_id ≡ step_id)
    × Authorized w run q now l d

for_step-Grounded :
    (w : World) (run : RunRow) (o : Option ActionRequest) (step_id stale now : ℕ) (l : Ledger)
    → Post
        (λ p.
          (d : PendingDispatch)
          → p.0 ≡ to_dispatch d
          → (q : ActionRequest) × (o ≡ some q) × (q.step_id ≡ step_id) × Authorized w run q now l d)
        (for_step w run o step_id stale now l)
unfolding for_step
for_step-Grounded w run none step_id stale now l = Post-error _
for_step-Grounded w run (some q) step_id stale now l =
    Post-if (not (q.step_id == step_id)) _
      (with_handler w run q (control_plane_action q.action) stale now l) (λ _. Post-error _)
      (λ e.
        Post-map _ (λ p h d x. (q, refl, ground (arith, e), h d x))
          (with_handler-Checks w run q (control_plane_action q.action) stale now l refl))

pub own_request_of :
    (run : RunRow) (id : ℕ) (l : Ledger) (q : ActionRequest)
    → own_request run id l ≡ some q
    → (find_request id l ≡ some q) × (q.run_id ≡ run.id)
own_request_of run id l q h = found (find_request id l) refl h
  where
    found :
        (o : Option ActionRequest)
        → find_request id l ≡ o
        → elim o [ none ↦ none | some q' ↦ if q'.run_id == run.id then some q' else none ] ≡ some q
        → (find_request id l ≡ some q) × (q.run_id ≡ run.id)
    found none e k = absurd (cc)
    found (some q') e k = elim (Bool-cases (q'.run_id == run.id)) [
      | inl y ↦
          let z : some q' ≡ some q = sym (ap (λ b. if b then some q' else none) y) ∙ k in
          (e ∙ z, ap (λ (o : Option ActionRequest). run_of o) (sym z) ∙ (==_iff _ _).0 y)
      | inr n ↦ absurd (no (sym (ap (λ b. if b then some q' else none) n) ∙ k))
    ]
      where
        run_of : Option ActionRequest → ℕ
        run_of none = 0
        run_of (some x) = x.run_id

        no : none ≡ some q → ⊥
        no x = cc

-- The gateway commits to a dispatch only if, once due approvals have expired, the request is one of
-- this run and this step that has no execution yet; it was allowed, or its approval was granted and
-- has not expired; the policy of this moment permits it; its payload and its connection are those that
-- were assessed, and the connection's secret is there; its change set is the one that is recorded of the
-- request, whose digest is that of the workspace now; and, if it is a write, no reconciliation of the
-- thread or of the payload is open.
pub prepare_execution_authorized :
    (w : World) (run : RunRow) (id step_id stale : ℕ) (s : Stamp) (l l' : Ledger)
    (d : PendingDispatch)
    → prepare_execution w run id step_id stale s l ≡ ok (to_dispatch d, l')
    → (l₁ : Ledger) × (expire_due s l ≡ ok l₁) × Grounded w run id step_id s.now l₁ d
unfolding prepare_execution
prepare_execution_authorized w run id step_id stale s l l' d e = swept (expire_due s l) refl e
  where
    swept :
        (m : Result GatewayError Ledger)
        → expire_due s l ≡ m
        → (m >>= λ l₁. for_step w run (own_request run id l₁) step_id stale s.now l₁)
          ≡ ok (to_dispatch d, l')
        → (l₁ : Ledger) × (expire_due s l ≡ ok l₁) × Grounded w run id step_id s.now l₁ d
    swept (err x) h k = absurd (cc)
    swept (ok l₁) h k =
        let g =
          Post-ok _ (to_dispatch d, l')
            (for_step-Grounded w run (own_request run id l₁) step_id stale s.now l₁) k d refl in
        let o = own_request_of run id l₁ g.0 g.1 in (l₁, h, (g.0, o.0, o.1, g.2, g.3))
