-- ===== src/Gateway/Delivered.antt =====
-- apps/control-plane-api/src/actions/action-gateway.ts, `issueGrant`: what a grant that is delivered says.
use employee_agent_platform.Prelude.{
  inl, inr, ℕ, ◌≡◌, refl, not, Option, none, some, ◌==◌, leb, arith, is_some,
}
use employee_agent_platform.Prelude.Result.{
  Result, ok, err, ◌>>=◌, throw_if, Post, Post-if, Post-bind, Post-then, Post-map, Post-ok,
  Post-throw_if, Post-value, Post-error,
}
use employee_agent_platform.Gateway.{
  Ledger, RunRow, ActionRequest, FailureCode, Grant, GatewayError, find_by, find_request,
}
use employee_agent_platform.Gateway.Registry.{execution_action}
use employee_agent_platform.Gateway.Assess.{assess}
use employee_agent_platform.Gateway.World.{World, Assessment, Prepared}
use employee_agent_platform.Gateway.Decide.{expire_due}
use employee_agent_platform.Gateway.Dispatch.{
  question_of, own_request, against_decision, against_policy,
}
use employee_agent_platform.Gateway.Grants.{
  Issue, granted, new_or_refused, unless_refused, find_grant, redeliver, deliver, issue_for,
  issue_grant,
}
use employee_agent_platform.Gateway.Authorized.{own_request_of}
use employee_agent_platform.Gateway.Committed.{
  Approved, Permitted, against_decision-none, against_policy-none,
}
use employee_agent_platform.Gateway.Lifetimes.{
  Delivered, grant_expiry-Within, grant_expiry-live, grant_expiry-soon,
}

granted-Delivered :
    (w : World) (run : RunRow) (q : ActionRequest) (i : Issue) (l : Ledger) (x : Option Prepared)
    (p : Option ℕ)
    → find_grant q.id l ≡ none
    → Approved q i.stamp.now l
    → Permitted (assess w run (question_of q) l).outcome q.decision
    → Post (Delivered w run q i.stamp.now l) (granted w q x p i l)
unfolding granted find_by
granted-Delivered w run q i l (some x) (some p) free a m = Post-value _ (record {
  live = grant_expiry-live q i.stamp.now l q.decision refl a;
  recorded = ground arith;
  before = inr (record {
    of_request = refl;
    first = free;
    approved = a;
    permitted = m;
    soon = grant_expiry-soon q i.stamp.now l q.decision;
    within = grant_expiry-Within q i.stamp.now l q.decision;
    at_least = omega arith;
    at_most = omega arith;
  });
})
granted-Delivered w run q i l (some x) none free a m = Post-error _
granted-Delivered w run q i l none p free a m = Post-error _

-- What has not been refused.
unless_refused-none : (o : Option FailureCode) → Post (λ _. o ≡ none) (unless_refused o)
unless_refused-none none = Post-value _ refl
unless_refused-none (some c) = Post-error _

new_or_refused-Delivered :
    (w : World) (run : RunRow) (q : ActionRequest) (i : Issue) (l : Ledger)
    → find_grant q.id l ≡ none
    → Post (Delivered w run q i.stamp.now l) (new_or_refused w run q i l)
unfolding new_or_refused
new_or_refused-Delivered w run q i l free =
    Post-bind _ _ (unless_refused-none (against_decision q.decision q i.stamp.now l)) (λ _ a.
      Post-bind _ _ (unless_refused-none (against_policy v.outcome q.decision)) (λ _ b.
        granted-Delivered w run q i l v.execution v.parameters free
          (against_decision-none q i.stamp.now l a) (against_policy-none v.outcome q.decision b)))
  where
    v : Assessment
    v = assess w run (question_of q) l

deliver-Delivered :
    (w : World) (run : RunRow) (q : ActionRequest) (i : Issue) (l : Ledger)
    → Post (Delivered w run q i.stamp.now l) (deliver w run q i l)
unfolding deliver redeliver
deliver-Delivered w run q i l = found (find_grant q.id l) refl
  where
    found :
        (o : Option Grant)
        → find_grant q.id l ≡ o
        → Post
            (Delivered w run q i.stamp.now l)
            (elim o [ some g ↦ redeliver g i.stamp.now l | none ↦ new_or_refused w run q i l ])
    found none e = new_or_refused-Delivered w run q i l e
    found (some g) e =
        Post-if (leb g.expires_at i.stamp.now) _ (ok (g, l)) (λ _. Post-error _)
          (λ h. Post-value _ (record { live = ground (arith, h); recorded = e; before = inl e }))

issue_for-Delivered :
    (w : World) (run : RunRow) (o : Option ActionRequest) (i : Issue) (l : Ledger)
    → Post
        (λ r.
          (q : ActionRequest) × (o ≡ some q)
          × (q.step_id ≡ i.step_id)
          × Delivered w run q i.stamp.now l r)
        (issue_for w run o i l)
unfolding issue_for
issue_for-Delivered w run none i l = Post-error _
issue_for-Delivered w run (some q) i l =
    Post-bind _ _
      (Post-throw_if (not (q.step_id == i.step_id)) GatewayError.runtime_correlation_mismatch)
      (λ _ e.
        Post-then
          (throw_if (not (is_some (execution_action q.action))) GatewayError.action_not_grantable) _
          (λ _.
            Post-map _ (λ r h. (q, refl, ground (arith, e), h)) (deliver-Delivered w run q i l)))

-- A grant that is delivered has not expired, is the one that is recorded for the request, and is one that
-- was recorded before or a new one. A new one is for a request that was allowed, or whose approval was
-- granted and has not expired, and that the policy of this moment permits; it expires within ten minutes
-- and no later than the approval, and limits the operation to between a second and an hour.
pub issue_grant_authorized :
    (w : World) (run : RunRow) (id : ℕ) (i : Issue) (l l' : Ledger) (g : Grant)
    → issue_grant w run id i l ≡ ok (g, l')
    → (l₁ : Ledger) × (expire_due i.stamp l ≡ ok l₁)
      × (q : ActionRequest) × (find_request id l₁ ≡ some q)
      × (q.run_id ≡ run.id)
      × (q.step_id ≡ i.step_id)
      × Delivered w run q i.stamp.now l₁ (g, l')
unfolding issue_grant
issue_grant_authorized w run id i l l' g e = swept (expire_due i.stamp l) refl e
  where
    swept :
        (m : Result GatewayError Ledger)
        → expire_due i.stamp l ≡ m
        → (m >>= λ l₁. issue_for w run (own_request run id l₁) i l₁) ≡ ok (g, l')
        → (l₁ : Ledger) × (expire_due i.stamp l ≡ ok l₁)
          × (q : ActionRequest) × (find_request id l₁ ≡ some q)
          × (q.run_id ≡ run.id)
          × (q.step_id ≡ i.step_id)
          × Delivered w run q i.stamp.now l₁ (g, l')
    swept (err x) h k = absurd (cc)
    swept (ok l₁) h k =
        let d = Post-ok _ (g, l') (issue_for-Delivered w run (own_request run id l₁) i l₁) k in
        let o = own_request_of run id l₁ d.0 d.1 in (l₁, h, d.0, o.0, o.1, d.2, d.3)
