-- ===== src/Gateway/Tests.antt =====
-- apps/control-plane-api/src/actions: the gateway's calls on a small organization.
use employee_agent_platform.Prelude.{◌≡◌, ◌≢◌, map, inl, refl, true, none, some, [], ◌∷◌, arith}
use employee_agent_platform.Prelude.Result.{ok, err}
use employee_agent_platform.Policy.{deny, evaluate_action_policy, evaluate_policy, own, decisions}
use employee_agent_platform.Gateway.{
  Ledger, ActionRequest, find_by, find_execution, find_request, sort_by, insert_by, on_run,
  Reconciliation, required, reconciliation_resolved,
}
use employee_agent_platform.Gateway.Registry.{control_plane_action, execution_action}
use employee_agent_platform.Gateway.Reconcile.{
  blocks, Verification, is_applied, resolve, find_reconciliation,
}
use employee_agent_platform.Gateway.Assess.{
  assess, judge, authority_of, target_of, handler_target, execution_target, published,
}
use employee_agent_platform.Gateway.Decide.{
  expire_due, expire_all, expire_one, Moment, decide, record_request, verdict_of, ask_if, ask,
}
use employee_agent_platform.Gateway.Dispatch.{
  prepare_execution, for_step, with_handler, start_or_resume, start, against_decision,
  against_policy, refuse_or, connect, commit,
}
use employee_agent_platform.Gateway.Plan.{to_dispatch}
use employee_agent_platform.Gateway.Complete.{unconfirmed, dispatch, complete_execution}
use employee_agent_platform.Gateway.Grants.{
  issue_grant, issue_for, deliver, new_or_refused, granted, grant_expiry,
}
use employee_agent_platform.Gateway.Expired.{expired_if, expire_due_exact}
use employee_agent_platform.Gateway.Recorded.{RecordsAs, decide_recorded}
use employee_agent_platform.Gateway.Governed.{Rests, assess_fails_closed}
use employee_agent_platform.Gateway.Written.{find_file, last_write}
use employee_agent_platform.Gateway.Written.Latest.{
  AreLatest, IsOrdered, IsLimited, change_set_latest,
}
use employee_agent_platform.Gateway.Changes.{
  files, change_set, recorded_writes, collect, put_file, insert_path, sort_paths, relative_to,
  in_order,
}
use employee_agent_platform.Execution.{
  find_approval, transition_step, transition_run, find_step, append_control,
}
use employee_agent_platform.Lifecycle.{can_transition_step, can_transition_run}
use employee_agent_platform.Execution.Decisions.{
  pause_running, on_approval_expired, pause_for_approval,
}
use employee_agent_platform.Gateway.System.{perform_all}
use employee_agent_platform.Gateway.System.Once.{
  distinct, ids, perform_all_dispatches_once, perform_all_keeps_ended,
}
use employee_agent_platform.Gateway.System.Unresolved.{repeats, perform_all_never_repeats}
use employee_agent_platform.Gateway.Awaited.{awaits}
use employee_agent_platform.Gateway.Authorized.{Grounded, prepare_execution_authorized}
use employee_agent_platform.Gateway.Closing.{unknown_reply, unknown_row}
use employee_agent_platform.Gateway.Unknowns.{complete_execution-awaits, resolve_once, answered_row}
use employee_agent_platform.Gateway.Delivered.{issue_grant_authorized}
use employee_agent_platform.Gateway.Lifetimes.{Delivered}
use employee_agent_platform.Gateway.Sample.{
  world, run, ledger, stamp, sent, execution, started, ended_execution, ended, unanswered, waiting,
  calls, ungranted, issue, grant, ready, overdue, submission, undecided, reads_file, written,
  published_file,
}

prepares_it : prepare_execution world run 11 21 30000 stamp ledger ≡ ok (to_dispatch sent, started)
unfolding prepare_execution expire_due expire_all sort_by insert_by for_step with_handler
    start_or_resume start find_by control_plane_action assess judge authority_of target_of
    handler_target published evaluate_action_policy evaluate_policy own decisions against_decision
    against_policy refuse_or connect commit blocks
prepares_it = refl

prepare_execution_authorized_example :
    (l₁ : Ledger) × (expire_due stamp ledger ≡ ok l₁) × Grounded world run 11 21 100 l₁ sent
prepare_execution_authorized_example =
    prepare_execution_authorized world run 11 21 30000 stamp ledger started sent prepares_it

perform_all_dispatches_once_example :
    distinct (ids (perform_all calls (record { ledger = ledger; sent = [] })).sent) ≡ true
perform_all_dispatches_once_example =
    perform_all_dispatches_once calls (record { ledger = ledger; sent = [] }) refl

perform_all_keeps_ended_example :
    find_execution 11 (perform_all calls (record { ledger = ended; sent = [] })).ledger
    ≡ some ended_execution
unfolding find_by
perform_all_keeps_ended_example =
    perform_all_keeps_ended calls (record { ledger = ended; sent = [] }) 11 ended_execution refl
      refl

perform_all_never_repeats_example :
    repeats "jira.issue.create" 1077
      (perform_all calls (record { ledger = waiting; sent = sent ∷ [] })).sent
    ≡ repeats "jira.issue.create" 1077 (sent ∷ [])
perform_all_never_repeats_example =
    perform_all_never_repeats calls (record { ledger = waiting; sent = sent ∷ [] })
      "jira.issue.create" 1077 refl refl

complete_execution-awaits_example :
    (l' : Ledger) × (complete_execution sent (dispatch sent unconfirmed) 150 started
      ≡ ok (unknown_reply 11, l'))
    × (find_execution 11 l' ≡ some (unknown_row 150 execution))
    × (awaits "jira.issue.create" 1077 l' ≡ true)
unfolding find_by
complete_execution-awaits_example =
    complete_execution-awaits sent unconfirmed 150 started run execution refl refl refl refl refl
      (inl refl)

abbrev verification : Verification
verification = record { actor_id = 8; resolution = is_applied; note = none; now = 300 }

abbrev answered_ledger : Ledger
answered_ledger = record waiting { reconciliations = answered_row verification unanswered ∷ [] }

resolve_once_example :
    (x : Reconciliation) × (find_reconciliation 11 waiting ≡ some x)
    × (x.state ≡ required)
    × (find_reconciliation 11 answered_ledger ≡ some (answered_row verification x))
    × (find_reconciliation 12 answered_ledger ≡ find_reconciliation 12 waiting)
    × (resolve 11 verification answered_ledger ≡ err reconciliation_resolved)
unfolding resolve find_by
resolve_once_example =
    resolve_once 11 12 verification verification waiting answered_ledger
      (λ e. absurd (omega (arith, e))) refl

issues_it : issue_grant world run 13 (issue 100) ungranted ≡ ok (grant, ready)
unfolding issue_grant expire_due expire_all sort_by issue_for deliver new_or_refused granted
    grant_expiry find_by control_plane_action execution_action assess judge authority_of target_of
    execution_target evaluate_action_policy evaluate_policy own decisions against_decision
    against_policy
issues_it = refl

issue_grant_authorized_example :
    (l₁ : Ledger) × (expire_due (issue 100).stamp ungranted ≡ ok l₁)
    × (q : ActionRequest) × (find_request 13 l₁ ≡ some q)
    × (q.run_id ≡ 1)
    × (q.step_id ≡ 21)
    × Delivered world run q 100 l₁ (grant, ready)
issue_grant_authorized_example =
    issue_grant_authorized world run 13 (issue 100) ungranted ready grant issues_it

-- What a sweep leaves of the overdue approvals.
abbrev swept : Ledger
swept = elim (expire_due stamp overdue) [ ok l ↦ l | err e ↦ overdue ]

sweeps_it : expire_due stamp overdue ≡ ok swept
unfolding expire_due expire_all expire_one sort_by insert_by on_run find_by on_approval_expired
    find_approval
sweeps_it = refl

expire_due_exact_example : swept.approvals ≡ map (expired_if 100) overdue.approvals
expire_due_exact_example = expire_due_exact stamp overdue swept refl sweeps_it

abbrev moment : Moment
moment = record { approval_id = 60; stamp = stamp }

abbrev decided : Ledger
decided = elim (decide world run submission moment undecided) [ ok l ↦ l | err e ↦ undecided ]

decides_it : decide world run submission moment undecided ≡ ok decided
unfolding decide record_request verdict_of ask_if ask on_run find_by pause_for_approval assess judge
    authority_of target_of control_plane_action handler_target published evaluate_action_policy
    evaluate_policy own decisions blocks pause_running transition_step find_step can_transition_step
    transition_run append_control can_transition_run
decides_it = refl

decide_recorded_example :
    (q : ActionRequest) × (find_request 14 decided ≡ some q)
    × (q.run_id ≡ 1)
    × (q.step_id ≡ 21)
    × RecordsAs
        (verdict_of world run submission.question undecided).outcome
        1
        (verdict_of world run submission.question undecided)
        submission
        moment
        q
        decided
unfolding find_by
decide_recorded_example =
    decide_recorded world run submission moment undecided decided refl refl decides_it

question_allowed : (assess world run submission.question ledger).outcome ≢ deny
unfolding assess judge authority_of target_of handler_target find_by control_plane_action published
    evaluate_action_policy evaluate_policy own decisions
question_allowed = λ e. cc

assess_fails_closed_example :
    Rests world run submission.question ledger (assess world run submission.question ledger)
assess_fails_closed_example =
    assess_fails_closed world run submission.question ledger question_allowed

publishes_it : change_set reads_file 7 (114 ∷ []) written ≡ files (published_file ∷ [])
unfolding change_set recorded_writes collect put_file insert_path sort_paths relative_to find_by
    find_step sort_by insert_by
publishes_it = refl

change_set_latest_example :
    (find_file (97 ∷ []) (published_file ∷ [])
      ≡ last_write (114 ∷ []) (97 ∷ []) (recorded_writes reads_file 7 written (in_order written)))
    × AreLatest
        (114 ∷ [])
        (recorded_writes reads_file 7 written (in_order written))
        (published_file ∷ [])
    × IsOrdered (published_file ∷ [])
    × IsLimited (published_file ∷ [])
change_set_latest_example =
    change_set_latest reads_file 7 (114 ∷ []) (97 ∷ []) written (published_file ∷ []) publishes_it
