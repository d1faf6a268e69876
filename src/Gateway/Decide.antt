-- ===== src/Gateway/Decide.antt =====
-- apps/control-plane-api/src/actions/action-gateway.ts, `decide` and `expireDue`: the verdict on a
-- request, the approval that it may need, and the end of an approval.
use employee_agent_platform.Prelude.{
  ℕ, ◌+◌, ◌*◌, String, Bool, true, false, ◌&&◌, not, Option, none, some, List, [], ◌∷◌, ◌++◌, ◌==◌,
  leb, if◌then◌else◌, map,
}
use employee_agent_platform.Prelude.Result.{Result, ok, ◌>>=◌}
use employee_agent_platform.Policy.{
  Risk, Outcome, allow, require_approval, deny, PolicyCondition, ttl_seconds, bind_to_input_digest,
  ActionPolicyDecision,
}
use employee_agent_platform.Execution.{ApprovalStatus, Stamp}
use employee_agent_platform.Execution.Decisions.{pause_for_approval, on_approval_expired}
use employee_agent_platform.Gateway.{
  Ledger, RunRow, ActionRequest, ApprovalRow, Decision, allowed, denied, approval_required,
  GatewayError, on_run, sort_by,
}
use employee_agent_platform.Gateway.Registry.{Handler, effect, is_write}
use employee_agent_platform.Gateway.Reconcile.{blocks}
use employee_agent_platform.Gateway.Assess.{assess}
use employee_agent_platform.Gateway.World.{
  World, Question, Assessment, denied_for, action_reconciliation_required,
}

-- What the runtime sends for decision.
pub record Submission : Type 0 where
  pub request_id : ℕ
  pub step_id : ℕ
  pub question : Question
  pub request_hash : ℕ

-- `approval_id` is the random identifier of an approval that the call may make; times are in
-- milliseconds.
pub record Moment : Type 0 where
  pub approval_id : ℕ
  pub stamp : Stamp

-- A write that has to wait for a person.
abbrev handler_blocked : World → RunRow → String → Option Handler → Option ℕ → Ledger → Bool
handler_blocked w run action (some h) (some p) l =
    is_write (effect h) && blocks run.state.thread_id action (w.digest p) l
handler_blocked w run action (some h) none l = false
handler_blocked w run action none p l = false

abbrev is_denied : Outcome → Bool
is_denied deny = true
is_denied allow = false
is_denied require_approval = false

abbrev hold : Assessment → Assessment
hold v = record v {
  outcome = deny;
  reason = denied_for action_reconciliation_required;
  policy = none;
}

-- The verdict of `decide`: an assessment, unless it is held back.
unfoldable pub verdict_of : World → RunRow → Question → Ledger → Assessment
verdict_of w run q l =
    let v = assess w run q l in
    if not (is_denied v.outcome) && handler_blocked w run q.action v.handler v.parameters l
    then hold v
    else v

abbrev pub decision_of : Outcome → Decision
decision_of allow = allowed
decision_of deny = denied
decision_of require_approval = approval_required

-- The seconds of the first condition on time, or an hour.
abbrev pub ttl_of : List PolicyCondition → ℕ
ttl_of [] = 3600
ttl_of (ttl_seconds n ∷ l) = n
ttl_of (bind_to_input_digest ∷ l) = ttl_of l

abbrev conditions_of : Option ActionPolicyDecision → List PolicyCondition
conditions_of none = []
conditions_of (some p) = p.conditions

abbrev pub new_approval : ℕ → Assessment → Submission → Moment → ApprovalRow
new_approval run_id v s m = record {
  id = m.approval_id;
  run_id = run_id;
  step_id = s.step_id;
  status = ApprovalStatus.pending;
  expires_at = some (m.stamp.now + ttl_of (conditions_of v.policy) * 1000);
}

-- An approval is asked for, and pauses the run.
unfoldable pub ask : ℕ → Assessment → Submission → Moment → Ledger → Result GatewayError Ledger
ask run_id v s m l =
    on_run run_id (pause_for_approval s.step_id m.stamp)
      (record l { approvals = l.approvals ++ new_approval run_id v s m ∷ [] })

unfoldable pub ask_if :
    Outcome → ℕ → Assessment → Submission → Moment → Ledger → Result GatewayError Ledger
ask_if require_approval run_id v s m l = ask run_id v s m l
ask_if allow run_id v s m l = ok l
ask_if deny run_id v s m l = ok l

abbrev approval_of : Outcome → Moment → Option ℕ
approval_of require_approval m = some m.approval_id
approval_of allow m = none
approval_of deny m = none

abbrev unless_denied : {A : Type 0} → Outcome → Option A → Option A
unless_denied deny p = none
unless_denied allow p = p
unless_denied require_approval p = p

abbrev pub new_request : ℕ → Assessment → Submission → Moment → ActionRequest
new_request run_id v s m = record {
  id = s.request_id;
  run_id = run_id;
  step_id = s.step_id;
  action = s.question.action;
  tool_id = s.question.tool_id;
  decision = decision_of v.outcome;
  risk = v.risk;
  approval_id = approval_of v.outcome m;
  parameters = unless_denied v.outcome v.parameters;
  change_set = unless_denied v.outcome v.changes;
  request_hash = s.request_hash;
  created_at = m.stamp.now;
}

unfoldable pub record_request :
    ℕ → Assessment → Submission → Moment → Ledger → Result GatewayError Ledger
record_request run_id v s m l = ask_if v.outcome run_id v s m l >>= λ l'.
    ok (record l' { requests = l'.requests ++ new_request run_id v s m ∷ [] })

-- For a run and a step that are running, and a request that is not recorded yet.
unfoldable pub decide : World → RunRow → Submission → Moment → Ledger → Result GatewayError Ledger
decide w run s m l = record_request run.id (verdict_of w run s.question l) s m l

-- What the runtime is told of a request that is recorded, less the text of its reason.
pub record RuntimeDecision : Type 0 where
  pub request_id : ℕ
  pub risk : Risk
  pub decision : Decision
  pub approval_id : Option ℕ

abbrev pub asked_for : Decision → Option ℕ → Option ℕ
asked_for approval_required id = id
asked_for allowed id = none
asked_for denied id = none

unfoldable pub stored_decision : ActionRequest → RuntimeDecision
stored_decision q = record {
  request_id = q.id;
  risk = q.risk;
  decision = q.decision;
  approval_id = asked_for q.decision q.approval_id;
}

abbrev pub is_pending : ApprovalStatus → Bool
is_pending ApprovalStatus.pending = true
is_pending ApprovalStatus.approved = false
is_pending ApprovalStatus.rejected = false
is_pending ApprovalStatus.expired = false

-- `expires_at IS NOT NULL AND expires_at<=?`
abbrev pub past : ℕ → Option ℕ → Bool
past now none = false
past now (some t) = leb t now

abbrev pub is_due : ℕ → ApprovalRow → Bool
is_due now a = is_pending a.status && past now a.expires_at

abbrev pub due_of : ℕ → List ApprovalRow → List ApprovalRow
due_of now [] = []
due_of now (a ∷ l) = if is_due now a then a ∷ due_of now l else due_of now l

abbrev pub expiry : ApprovalRow → ℕ
expiry a = elim a.expires_at [ none ↦ 0 | some t ↦ t ]

abbrev pub expire_row : ℕ → ApprovalRow → ApprovalRow
expire_row id a =
    if a.id == id && is_pending a.status then record a { status = ApprovalStatus.expired } else a

unfoldable pub expire_one : Stamp → ApprovalRow → Ledger → Result GatewayError Ledger
expire_one s a l =
    on_run a.run_id (on_approval_expired a.id s)
      (record l { approvals = map (expire_row a.id) l.approvals })

unfoldable pub expire_all : Stamp → List ApprovalRow → Ledger → Result GatewayError Ledger
expire_all s [] l = ok l
expire_all s (a ∷ rest) l = expire_one s a l >>= λ l'. expire_all s rest l'

-- Every approval here is linked to a run. The events of the runs have the stamp's identifiers.
unfoldable pub expire_due : Stamp → Ledger → Result GatewayError Ledger
expire_due s l = expire_all s (sort_by expiry (due_of s.now l.approvals)) l
