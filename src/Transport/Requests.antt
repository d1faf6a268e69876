-- ===== src/Transport/Requests.antt =====
-- apps/control-plane-api/src/runtime/runtime-transport-service.ts, `requestAction`: requests that are
-- sent again.
use employee_agent_platform.Prelude.{
  ◌≡◌, refl, Bool, true, false, ℕ, not, Option, none, some, ◌==◌, if◌then◌else◌, arith, sym, ap,
  ==_iff, ◌∙◌,
}
use employee_agent_platform.Prelude.Result.{
  Result, ok, err, ◌>>=◌, Post, Post-bind, Post-then, Post-ok, Post-value, Post-error, Post-if,
}
use employee_agent_platform.Gateway.{
  Ledger, RunRow, ActionRequest, GatewayError, find_by, find_request,
}
use employee_agent_platform.Gateway.World.{World}
use employee_agent_platform.Gateway.Decide.{
  Submission, Moment, RuntimeDecision, stored_decision, decide, new_request, verdict_of,
}
use employee_agent_platform.Gateway.Recorded.{decide-found}
use employee_agent_platform.Transport.{
  RuntimeIdentity, Correlation, Tenant, Lease, TransportError, runtime_action_conflict, of_gateway,
  owned_lease, serves_organization, repeated, told, first, decide_once, running_step,
  request_action,
}

-- What a decision leaves: a row that says what was told and has the request's hash.
pub record Answers (s : Submission) (t : Tenant) (r : RuntimeDecision × Tenant) : Type 0 where
  pub row : ActionRequest
  pub found : find_request s.request_id r.1.ledger ≡ some row
  pub hash : row.request_hash ≡ s.request_hash
  pub told : r.0 ≡ stored_decision row

repeated-Answers :
    (q : ActionRequest) (s : Submission) (t : Tenant)
    → find_request s.request_id t.ledger ≡ some q
    → Post (Answers s t) (repeated q s t)
unfolding repeated
repeated-Answers q s t h =
    Post-if (not (q.request_hash == s.request_hash)) _ _ (λ _. Post-error _)
      (λ e. Post-value _ (record { row = q; found = h; hash = ground (arith, e); told = refl }))

of_gateway-Post : {A : Type 0} (m : Result GatewayError A) → Post (λ a. m ≡ ok a) (of_gateway m)
of_gateway-Post (ok a) = Post-value a refl
of_gateway-Post (err e) = Post-error _

first-Answers :
    (w : World) (run : RunRow) (s : Submission) (m : Moment) (t : Tenant)
    → find_request s.request_id t.ledger ≡ none
    → Post (Answers s t) (first w run s m t)
unfolding first told
first-Answers w run s m t h =
    Post-bind _ _ (of_gateway-Post (decide w run s m t.ledger))
      (λ l e. inserted l (find_request s.request_id l) refl (decide-found w run s m t.ledger l h e))
  where
    inserted :
        (l : Ledger) (o : Option ActionRequest)
        → find_request s.request_id l ≡ o
        → find_request s.request_id l
          ≡ some (new_request run.id (verdict_of w run s.question t.ledger) s m)
        → Post (Answers s t) (elim o [
          | none ↦ err (TransportError.gateway GatewayError.row_missing)
          | some q ↦ ok (stored_decision q, record t { ledger = l })
        ])
    inserted l none e k = Post-error _
    inserted l (some q) e k = Post-value _ (record {
      row = q;
      found = e;
      hash =
          ap
            (λ (x : Option ActionRequest). elim x [
              | none ↦ s.request_hash
              | some y ↦ y.request_hash
            ])
            (sym e ∙ k);
      told = refl;
    })

decide_once-Answers :
    (w : World) (rt : RuntimeIdentity) (c : Correlation) (s : Submission) (m : Moment) (t : Tenant)
    → Post (Answers s t) (decide_once w rt c s m t)
unfolding decide_once
decide_once-Answers w rt c s m t = known (find_request s.request_id t.ledger) refl
  where
    known :
        (o : Option ActionRequest)
        → find_request s.request_id t.ledger ≡ o
        → Post (Answers s t) (elim o [
          | some q ↦ repeated q s t
          | none ↦ running_step rt c s.step_id t >>= λ run. first w run s m t
        ])
    known (some q) e = repeated-Answers q s t e
    known none e = Post-then (running_step rt c s.step_id t) _ (λ run. first-Answers w run s m t e)

owned_lease-holds :
    (rt : RuntimeIdentity) (run_id : ℕ) (t : Tenant) (lease : Lease)
    → find_by (λ (x : Lease). x.run_id) run_id t.leases ≡ some lease
    → lease.runtime_id ≡ rt.id
    → serves_organization rt.organizations t.organization_id ≡ true
    → owned_lease rt run_id t ≡ ok lease
unfolding owned_lease
owned_lease-holds rt run_id t lease h own serves =
    rw (owned_lease, h, (==_iff lease.runtime_id rt.id).1 own, serves) refl

repeated-again :
    (q : ActionRequest) (s s' : Submission) (t : Tenant) (d : RuntimeDecision)
    → q.request_hash ≡ s.request_hash
    → d ≡ stored_decision q
    → repeated q s' t
      ≡ (if s.request_hash == s'.request_hash then ok (d, t) else err runtime_action_conflict)
unfolding repeated
repeated-again q s s' t d h k =
    ap (λ n. answer (n == s'.request_hash)) h ∙ turned (s.request_hash == s'.request_hash)
  where
    answer : Bool → Result TransportError (RuntimeDecision × Tenant)
    answer b = if not b then err runtime_action_conflict else ok (stored_decision q, t)

    turned : (b : Bool) → answer b ≡ (if b then ok (d, t) else err runtime_action_conflict)
    turned true = ap (λ x. ok (x, t)) (sym k)
    turned false = refl

decide_once-again :
    (w : World) (rt : RuntimeIdentity) (c : Correlation) (s : Submission) (m : Moment) (t : Tenant)
    (q : ActionRequest)
    → find_request s.request_id t.ledger ≡ some q
    → decide_once w rt c s m t ≡ repeated q s t
unfolding decide_once
decide_once-again w rt c s m t q h = rw (decide_once, h) refl

-- A runtime that asks again about a request that has been decided, at any later time at which the request
-- is still recorded and the runtime still holds the lease of a run in an organization that it serves, is
-- told the same decision, and nothing is changed; a different request under the same identifier is a
-- conflict. What the policy, the run, its steps, its approvals and the rest of the rows have become does
-- not matter, nor whether the lease is still active.
pub request_action_again :
    (w w' : World) (rt : RuntimeIdentity) (c c' : Correlation) (s s' : Submission) (m m' : Moment)
    (t t' later : Tenant) (d : RuntimeDecision) (lease : Lease)
    → s'.request_id ≡ s.request_id
    → request_action w rt c s m t ≡ ok (d, t')
    → find_request s.request_id later.ledger ≡ find_request s.request_id t'.ledger
    → find_by (λ (x : Lease). x.run_id) c'.run_id later.leases ≡ some lease
    → lease.runtime_id ≡ rt.id
    → serves_organization rt.organizations later.organization_id ≡ true
    → request_action w' rt c' s' m' later
      ≡ (if s.request_hash == s'.request_hash then ok (d, later) else err runtime_action_conflict)
unfolding request_action
request_action_again w w' rt c c' s s' m m' t t' later d lease same e kept leased own serves =
    ap (λ o. o >>= λ _. decide_once w' rt c' s' m' later)
      (owned_lease-holds rt c'.run_id later lease leased own serves)
    ∙ decide_once-again w' rt c' s' m' later a.row
        (ap (λ n. find_request n later.ledger) same ∙ kept ∙ a.found)
    ∙ repeated-again a.row s s' later d a.hash a.told
  where
    a : Answers s t (d, t')
    a =
        Post-ok _ (d, t')
          (Post-then (owned_lease rt c.run_id t) _ (λ _. decide_once-Answers w rt c s m t)) e
