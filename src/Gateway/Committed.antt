-- ===== src/Gateway/Committed.antt =====
-- apps/control-plane-api/src/actions/action-gateway.ts, `prepareExecution`: what has been checked of a
-- request that had no execution.
use employee_agent_platform.Prelude.{
  ℕ, ◌≡◌, ◌≢◌, ◌⊎◌, inl, inr, refl, Bool, true, false, ◌&&◌, not, Option, none, some, if◌then◌else◌,
  arith, subst, sym, ap, ◌∙◌,
}
use employee_agent_platform.Policy.{Outcome, allow, require_approval, deny}
use employee_agent_platform.Execution.{ApprovalStatus}
use employee_agent_platform.Gateway.{
  Ledger, RunRow, ActionRequest, ApprovalRow, Decision, allowed, denied, approval_required,
  FailureCode, find_execution,
}
use employee_agent_platform.Gateway.Registry.{Handler, effect, is_write, control_plane_action}
use employee_agent_platform.Gateway.Reconcile.{blocks}
use employee_agent_platform.Gateway.Assess.{assess}
use employee_agent_platform.Gateway.World.{World, Assessment, Connection}
use employee_agent_platform.Gateway.Decide.{past}
use employee_agent_platform.Gateway.Dispatch.{
  refuse_or, connect, commit, start, option_eq, digest_of, against_decision, against_approval,
  against_policy, approval_row, question_of,
}
use employee_agent_platform.Gateway.Plan.{Plan, to_dispatch, PendingDispatch, refuse}

-- The request was allowed, or its approval was granted and has not expired.
abbrev pub Approved : ActionRequest → ℕ → Ledger → Type 0
Approved q now l =
    (q.decision ≡ allowed)
    ⊎ ((q.decision ≡ approval_required)
        × (a : ApprovalRow) × (approval_row q.approval_id l ≡ some a)
        × (a.status ≡ ApprovalStatus.approved)
        × (past now a.expires_at ≡ false))

-- The policy of this moment does not deny the request, nor does it ask for an approval that the
-- request does not have.
abbrev pub Permitted : Outcome → Decision → Type 0
Permitted allow d = Unit
Permitted require_approval d = d ≢ allowed
Permitted deny d = ⊥

pub record Authorized (w : World) (run : RunRow) (q : ActionRequest) (now : ℕ) (l : Ledger)
    (d : PendingDispatch) : Type 0 where
  pub of_request : d.request_id ≡ q.id
  pub of_run : d.run_id ≡ run.id
  pub same_action : control_plane_action q.action ≡ some d.handler
  pub approved : Approved q now l
  pub permitted : Permitted (assess w run (question_of q) l).outcome q.decision
  pub action : d.action ≡ q.action
  pub digest : d.payload_digest ≡ w.digest d.parameters
  pub payload : (assess w run (question_of q) l).parameters ≡ some d.parameters
  pub same_changes :
      option_eq (digest_of q.change_set) (digest_of (assess w run (question_of q) l).changes) ≡ true
  pub changes : d.change_set ≡ q.change_set
  pub connection : (assess w run (question_of q) l).connection ≡ some d.connection
  pub has_secret : w.has_secret d.connection.secret_ref ≡ true
  pub not_blocked :
      (is_write (effect d.handler) && blocks run.state.thread_id q.action (w.digest d.parameters) l)
      ≡ false
  pub first : find_execution q.id l ≡ none

pub against_decision-none :
    (q : ActionRequest) (now : ℕ) (l : Ledger)
    → against_decision q.decision q now l ≡ none
    → Approved q now l
unfolding against_decision
against_decision-none q now l h = by_decision q.decision refl h
  where
    by_approval :
        (o : Option ApprovalRow)
        → against_approval now o ≡ none
        → (a : ApprovalRow) × (o ≡ some a)
          × (a.status ≡ ApprovalStatus.approved)
          × (past now a.expires_at ≡ false)
    by_approval none e = absurd (cc)
    by_approval (some a) e = (a, refl, ground (arith, e), ground (arith, e))

    by_decision :
        (x : Decision) → q.decision ≡ x → against_decision x q now l ≡ none → Approved q now l
    by_decision allowed e k = inl e
    by_decision denied e k = absurd (cc)
    by_decision approval_required e k =
        let t = by_approval (approval_row q.approval_id l) k in inr (e, t.0, t.1, t.2, t.3)

pub against_policy-none : (o : Outcome) (d : Decision) → against_policy o d ≡ none → Permitted o d
unfolding against_policy
against_policy-none allow d h = tt
against_policy-none deny d h = absurd (cc)
against_policy-none require_approval allowed h = absurd (cc)
against_policy-none require_approval approval_required h = λ e. cc
against_policy-none require_approval denied h = λ e. cc

-- The conditions under which a stage commits to a dispatch, read back from its plan.
refuse-ne-dispatch :
    (code : FailureCode) (q : ActionRequest) (run_id now : ℕ) (l : Ledger) (d : PendingDispatch)
    → (refuse code q run_id now l).0 ≢ to_dispatch d
unfolding refuse
refuse-ne-dispatch code q run_id now l d = λ e. cc

module _ (q : ActionRequest) (now : ℕ) (l : Ledger) (d : PendingDispatch) where
  if_refused :
      (b : Bool) (code : FailureCode) (run_id : ℕ) (next : Plan × Ledger)
      → (if b then refuse code q run_id now l else next).0 ≡ to_dispatch d
      → (b ≡ false) × (next.0 ≡ to_dispatch d)
  if_refused true code run_id next e = absurd (refuse-ne-dispatch code q run_id now l d e)
  if_refused false code run_id next e = (refl, e)

  refuse_or-dispatch :
      (o : Option FailureCode) (run : RunRow) (next : Plan × Ledger)
      → (refuse_or o q run now l next).0 ≡ to_dispatch d
      → (o ≡ none) × (next.0 ≡ to_dispatch d)
  unfolding refuse_or
  refuse_or-dispatch none run next e = (refl, e)
  refuse_or-dispatch (some code) run next e = absurd (refuse-ne-dispatch code q run.id now l d e)

-- What `commit` has checked, and what it puts in the dispatch.
record Committed (w : World) (run : RunRow) (q : ActionRequest) (h : Handler) (v : Assessment)
    (c : Connection) (p : ℕ) (l : Ledger) (d : PendingDispatch) : Type 0 where
  of_request : d.request_id ≡ q.id
  of_run : d.run_id ≡ run.id
  handler : d.handler ≡ h
  parameters : d.parameters ≡ p
  action : d.action ≡ q.action
  digest : d.payload_digest ≡ w.digest p
  same_changes : option_eq (digest_of q.change_set) (digest_of v.changes) ≡ true
  changes : d.change_set ≡ q.change_set
  connection : d.connection ≡ c
  has_secret : w.has_secret c.secret_ref ≡ true
  not_blocked : (is_write (effect h) && blocks run.state.thread_id q.action (w.digest p) l) ≡ false

dispatch_inj : {d d' : PendingDispatch} → to_dispatch d ≡ to_dispatch d' → d ≡ d'
dispatch_inj e = cc

commit-Committed :
    (w : World) (run : RunRow) (q : ActionRequest) (h : Handler) (v : Assessment) (c : Connection)
    (p now : ℕ) (l : Ledger) (d : PendingDispatch)
    → (commit w run q h v c p now l).0 ≡ to_dispatch d
    → Committed w run q h v c p l d
unfolding commit
commit-Committed w run q h v c p now l d e =
    let a =
      if_refused q now l d (not (option_eq (digest_of q.change_set) (digest_of v.changes))) _ run.id
        _ e in
    let b =
      if_refused q now l d
        (is_write (effect h) && blocks run.state.thread_id q.action (w.digest p) l) _ run.id _
        a.1 in
    let s = if_refused q now l d (not (w.has_secret c.secret_ref)) _ run.id _ b.1 in
    record {
      of_request = sym (ap (λ x. x.request_id) (dispatch_inj s.1));
      of_run = sym (ap (λ x. x.run_id) (dispatch_inj s.1));
      changes = sym (ap (λ x. x.change_set) (dispatch_inj s.1));
      connection = sym (ap (λ x. x.connection) (dispatch_inj s.1));
      has_secret = ground (arith, s.0);
      handler = sym (ap (λ x. x.handler) (dispatch_inj s.1));
      parameters = sym (ap (λ x. x.parameters) (dispatch_inj s.1));
      action = sym (ap (λ x. x.action) (dispatch_inj s.1));
      digest = sym (ap (λ x. x.payload_digest) (dispatch_inj s.1));
      same_changes = ground (arith, a.0);
      not_blocked = b.0;
    }

connect-Committed :
    (w : World) (run : RunRow) (q : ActionRequest) (h : Handler) (v : Assessment)
    (c : Option Connection) (p : Option ℕ) (now : ℕ) (l : Ledger) (d : PendingDispatch)
    → (connect w run q h v c p now l).0 ≡ to_dispatch d
    → (c ≡ some d.connection)
      × (p ≡ some d.parameters)
      × Committed w run q h v d.connection d.parameters l d
unfolding connect
connect-Committed w run q h v (some c) (some p) now l d e =
    let k = commit-Committed w run q h v c p now l d e in
    (
      ap some (sym k.connection),
      ap some (sym k.parameters),
      subst (λ y. Committed w run q h v y d.parameters l d) (sym k.connection)
          (subst (λ x. Committed w run q h v c x l d) (sym k.parameters) k),
    )
connect-Committed w run q h v (some c) none now l d e =
    absurd (refuse-ne-dispatch _ q run.id now l d e)
connect-Committed w run q h v none p now l d e = absurd (refuse-ne-dispatch _ q run.id now l d e)

pub start-Authorized :
    (w : World) (run : RunRow) (q : ActionRequest) (h : Handler) (now : ℕ) (l : Ledger)
    (d : PendingDispatch)
    → control_plane_action q.action ≡ some h
    → find_execution q.id l ≡ none
    → (start w run q h now l).0 ≡ to_dispatch d
    → Authorized w run q now l d
unfolding start
start-Authorized w run q h now l d known free e = record {
  of_request = k.2.of_request;
  same_action = known ∙ ap some (sym k.2.handler);
  approved = against_decision-none q now l a.0;
  permitted = against_policy-none v.outcome q.decision b.0;
  action = k.2.action;
  digest = k.2.digest;
  payload = k.1;
  same_changes = k.2.same_changes;
  of_run = k.2.of_run;
  changes = k.2.changes;
  connection = k.0;
  has_secret = k.2.has_secret;
  not_blocked =
      subst
        (λ x.
          (is_write (effect x) && blocks run.state.thread_id q.action (w.digest d.parameters) l)
          ≡ false)
        (sym k.2.handler) k.2.not_blocked;
  first = free;
}
  where
    v : Assessment
    v = assess w run (question_of q) l

    a :
        (against_decision q.decision q now l ≡ none)
        × ((refuse_or
              (against_policy v.outcome q.decision)
              q
              run
              now
              l
              (connect w run q h v v.connection v.parameters now l)).0
            ≡ to_dispatch d)
    a = refuse_or-dispatch q now l d (against_decision q.decision q now l) run _ e

    b :
        (against_policy v.outcome q.decision ≡ none)
        × ((connect w run q h v v.connection v.parameters now l).0 ≡ to_dispatch d)
    b = refuse_or-dispatch q now l d (against_policy v.outcome q.decision) run _ a.1

    k :
        (v.connection ≡ some d.connection)
        × (v.parameters ≡ some d.parameters)
        × Committed w run q h v d.connection d.parameters l d
    k = connect-Committed w run q h v v.connection v.parameters now l d b.1
