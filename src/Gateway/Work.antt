-- ===== src/Gateway/Work.antt =====
-- apps/control-plane-api/src/actions/action-gateway.ts: what it does to executions and reconciliations
-- to decide a request or to issue a grant.
use employee_agent_platform.Prelude.{
  leb, ℕ, ◌≡◌, refl, not, Option, none, some, [], ◌∷◌, ◌++◌, ◌==◌, ◌∙◌, is_some,
}
use employee_agent_platform.Prelude.Result.{
  throw_if, Post, Post-if, Post-bind, Post-then, Post-map, Post-value, Post-error,
}
use employee_agent_platform.Policy.{Outcome, allow, require_approval, deny}
use employee_agent_platform.Execution.Decisions.{pause_for_approval}
use employee_agent_platform.Gateway.{Ledger, RunRow, Grant, ActionRequest, GatewayError}
use employee_agent_platform.Gateway.Registry.{execution_action}
use employee_agent_platform.Gateway.Assess.{assess}
use employee_agent_platform.Gateway.World.{World, Assessment, Prepared}
use employee_agent_platform.Gateway.Decide.{
  Submission, Moment, decide, record_request, ask, ask_if, new_approval, verdict_of,
}
use employee_agent_platform.Gateway.Dispatch.{
  own_request, question_of, against_decision, against_policy,
}
use employee_agent_platform.Gateway.Grants.{
  Issue, issue_grant, issue_for, deliver, unless_refused, redeliver, new_or_refused, granted,
  find_grant,
}
use employee_agent_platform.Gateway.Books.{on_run-SameBooks, expire_due-SameBooks}

pub record SameWork (l l' : Ledger) : Type 0 where
  pub executions : l'.executions ≡ l.executions
  pub reconciliations : l'.reconciliations ≡ l.reconciliations

SameWork-refl : (l : Ledger) → SameWork l l
SameWork-refl l = record { executions = refl; reconciliations = refl }

ask_if-SameWork :
    (o : Outcome) (run_id : ℕ) (v : Assessment) (s : Submission) (m : Moment) (l : Ledger)
    → Post (SameWork l) (ask_if o run_id v s m l)
unfolding ask_if ask
ask_if-SameWork require_approval run_id v s m l =
    Post-map _
      (λ l' h. record { executions = h.0.executions; reconciliations = h.0.reconciliations })
      (on_run-SameBooks run_id (pause_for_approval s.step_id m.stamp)
        (record l { approvals = l.approvals ++ new_approval run_id v s m ∷ [] }))
ask_if-SameWork allow run_id v s m l = Post-value l (SameWork-refl l)
ask_if-SameWork deny run_id v s m l = Post-value l (SameWork-refl l)

pub decide-SameWork :
    (w : World) (run : RunRow) (s : Submission) (m : Moment) (l : Ledger)
    → Post (SameWork l) (decide w run s m l)
unfolding decide record_request
decide-SameWork w run s m l = Post-bind _ _ (ask_if-SameWork v.outcome run.id v s m l) (λ l₁ h.
    Post-value _ (record { executions = h.executions; reconciliations = h.reconciliations }))
  where
    v : Assessment
    v = verdict_of w run s.question l

granted-SameWork :
    (w : World) (q : ActionRequest) (x : Option Prepared) (p : Option ℕ) (i : Issue) (l : Ledger)
    → Post (λ r. SameWork l r.1) (granted w q x p i l)
unfolding granted
granted-SameWork w q (some x) (some p) i l =
    Post-value _ (record { executions = refl; reconciliations = refl })
granted-SameWork w q (some x) none i l = Post-error _
granted-SameWork w q none p i l = Post-error _

deliver-SameWork :
    (w : World) (run : RunRow) (q : ActionRequest) (i : Issue) (l : Ledger)
    → Post (λ r. SameWork l r.1) (deliver w run q i l)
unfolding deliver new_or_refused redeliver
deliver-SameWork w run q i l = found (find_grant q.id l)
  where
    v : Assessment
    v = assess w run (question_of q) l

    found :
        (o : Option Grant)
        → Post
            (λ r. SameWork l r.1)
            (elim o [ some g ↦ redeliver g i.stamp.now l | none ↦ new_or_refused w run q i l ])
    found (some g) =
        Post-if (leb g.expires_at i.stamp.now) _ _ (λ _. Post-error _)
          (λ _. Post-value _ (record { executions = refl; reconciliations = refl }))
    found none = Post-then (unless_refused (against_decision q.decision q i.stamp.now l)) _ (λ _.
        Post-then (unless_refused (against_policy v.outcome q.decision)) _
          (λ _. granted-SameWork w q v.execution v.parameters i l))

issue_for-SameWork :
    (w : World) (run : RunRow) (q : Option ActionRequest) (i : Issue) (l : Ledger)
    → Post (λ r. SameWork l r.1) (issue_for w run q i l)
unfolding issue_for
issue_for-SameWork w run none i l = Post-error _
issue_for-SameWork w run (some q) i l =
    Post-then (throw_if (not (q.step_id == i.step_id)) GatewayError.runtime_correlation_mismatch) _
      (λ _.
        Post-then
          (throw_if (not (is_some (execution_action q.action))) GatewayError.action_not_grantable) _
          (λ _. deliver-SameWork w run q i l))

pub issue_grant-SameWork :
    (w : World) (run : RunRow) (id : ℕ) (i : Issue) (l : Ledger)
    → Post (λ r. SameWork l r.1) (issue_grant w run id i l)
unfolding issue_grant
issue_grant-SameWork w run id i l = Post-bind _ _ (expire_due-SameBooks i.stamp l) (λ l₁ b.
    Post-map _
      (λ r h. record {
        executions = h.executions ∙ b.0.executions;
        reconciliations = h.reconciliations ∙ b.0.reconciliations;
      })
      (issue_for-SameWork w run (own_request run id l₁) i l₁))
