-- ===== src/Transport/Tests.antt =====
-- apps/control-plane-api/src/runtime/runtime-transport-service.ts: a request that is sent twice.
use employee_agent_platform.Prelude.{◌≡◌, refl, some, [], ◌∷◌, true, false, ◌==◌, if◌then◌else◌}
use employee_agent_platform.Prelude.Result.{ok, err}
use employee_agent_platform.Policy.{medium, evaluate_action_policy, evaluate_policy, own, decisions}
use employee_agent_platform.Lifecycle.{AgentRunStatus, can_transition_step, can_transition_run}
use employee_agent_platform.Execution.{transition_step, transition_run, find_step, append_control}
use employee_agent_platform.Execution.Decisions.{pause_running, pause_for_approval}
use employee_agent_platform.Gateway.{find_by, on_run, approval_required}
use employee_agent_platform.Gateway.Registry.{control_plane_action}
use employee_agent_platform.Gateway.Reconcile.{blocks}
use employee_agent_platform.Gateway.Assess.{
  assess, judge, authority_of, target_of, handler_target, published,
}
use employee_agent_platform.Gateway.Decide.{
  RuntimeDecision, Moment, stored_decision, decide, record_request, verdict_of, ask_if, ask,
}
use employee_agent_platform.Gateway.Sample.{world, run, submission, undecided, stamp}
use employee_agent_platform.Transport.{
  RuntimeIdentity, Correlation, Tenant, runtime_action_conflict, owned_lease, running_run,
  running_step, told, first, decide_once, request_action,
}
use employee_agent_platform.Transport.Requests.{request_action_again}

abbrev runtime : RuntimeIdentity
runtime = record { id = 70; organizations = some (71 ∷ []) }

abbrev correlation : Correlation
correlation = record {
  organization_id = 71;
  thread_id = 7;
  employee_id = 2;
  agent_id = 3;
  run_id = 1;
}

abbrev tenant : Tenant
tenant = record {
  organization_id = 71;
  leases = record { run_id = 1; runtime_id = 70; is_active = true } ∷ [];
  ledger = undecided;
}

abbrev moment : Moment
moment = record { approval_id = 60; stamp = stamp }

abbrev decision : RuntimeDecision
decision = record {
  request_id = 14;
  risk = medium;
  decision = approval_required;
  approval_id = some 60;
}

-- The tenant after the first request.
abbrev asked : Tenant
asked = elim (request_action world runtime correlation submission moment tenant) [
  | ok r ↦ r.1
  | err e ↦ tenant
]

asks_it : request_action world runtime correlation submission moment tenant ≡ ok (decision, asked)
unfolding request_action owned_lease decide_once running_step running_run first told stored_decision
    decide record_request verdict_of ask_if ask on_run find_by pause_for_approval assess judge
    authority_of target_of control_plane_action handler_target published evaluate_action_policy
    evaluate_policy own decisions blocks pause_running transition_step find_step can_transition_step
    transition_run append_control can_transition_run
asks_it = refl

-- The run has been cancelled since, and its lease has ended.
abbrev ended : Tenant
ended = record {
  organization_id = 71;
  leases = record { run_id = 1; runtime_id = 70; is_active = false } ∷ [];
  ledger = record asked.ledger {
    runs = record run { state = record run.state { status = AgentRunStatus.cancelled } } ∷ [];
    approvals = [];
  };
}

request_action_again_example : request_action world runtime correlation submission moment ended ≡ (
    if submission.request_hash == submission.request_hash
    then ok (decision, ended)
    else err runtime_action_conflict)
unfolding find_by
request_action_again_example =
    request_action_again world world runtime correlation correlation submission submission moment
      moment tenant asked ended decision (record { run_id = 1; runtime_id = 70; is_active = false })
      refl asks_it refl refl refl refl
