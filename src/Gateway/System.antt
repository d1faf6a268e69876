-- ===== src/Gateway/System.antt =====
-- apps/control-plane-api/src/actions: any sequence of the gateway's calls on one organization, together
-- with what people and the execution service do to its runs and approvals in between.
pub mod Once
pub mod Unresolved
use employee_agent_platform.Prelude.{ℕ, Option, none, some, List, [], ◌∷◌}
use employee_agent_platform.Prelude.Result.{Result, ok, err}
use employee_agent_platform.Execution.{Stamp}
use employee_agent_platform.Gateway.{Ledger, RunRow, ApprovalRow, Grant, GatewayError}
use employee_agent_platform.Gateway.Reconcile.{Verification, resolve}
use employee_agent_platform.Gateway.World.{World}
use employee_agent_platform.Gateway.Decide.{Submission, Moment, decide, expire_due}
use employee_agent_platform.Gateway.Dispatch.{prepare_execution}
use employee_agent_platform.Gateway.Plan.{Plan, finished, to_dispatch, PendingDispatch, Reply}
use employee_agent_platform.Gateway.Complete.{
  Answer, dispatch, complete_execution, reconcile_interrupted,
}
use employee_agent_platform.Gateway.Grants.{Issue, issue_grant}

-- `sent` has the dispatches that the gateway has committed to, the newest first. Each may then be sent
-- to its connector once.
pub record System : Type 0 where
  pub ledger : Ledger
  pub sent : List PendingDispatch

-- A call, with what the other services say at its time. `others` is what anyone else does to the runs
-- and the approvals.
pub data Call : Type 0 where
  decides : World → RunRow → Submission → Moment → Call
  prepares : World → RunRow → (request_id step_id stale : ℕ) → Stamp → Call
  completes : PendingDispatch → Answer → ℕ → Call
  interrupts : World → (room stale now : ℕ) → Call
  issues : World → RunRow → ℕ → Issue → Call
  resolves : ℕ → Verification → Call
  expires : Stamp → Call
  others : List RunRow → List ApprovalRow → Call

-- A call that throws is rolled back.
abbrev pub committed : Result GatewayError Ledger → System → System
committed (ok l) y = record y { ledger = l }
committed (err e) y = y

abbrev pub planned : Result GatewayError (Plan × Ledger) → System → System
planned (ok (finished r, l)) y = record y { ledger = l }
planned (ok (to_dispatch d, l)) y = record { ledger = l; sent = d ∷ y.sent }
planned (err e) y = y

abbrev pub replied : Result GatewayError (Reply × Ledger) → System → System
replied (ok (r, l)) y = record y { ledger = l }
replied (err e) y = y

abbrev pub issued : Result GatewayError (Grant × Ledger) → System → System
issued (ok (g, l)) y = record y { ledger = l }
issued (err e) y = y

unfoldable pub perform : Call → System → System
perform (decides w run s m) y = committed (decide w run s m y.ledger) y
perform (prepares w run id step_id stale s) y =
    planned (prepare_execution w run id step_id stale s y.ledger) y
perform (completes d a now) y = replied (complete_execution d (dispatch d a) now y.ledger) y
perform (interrupts w room stale now) y = record y {
  ledger = reconcile_interrupted w room stale now y.ledger;
}
perform (issues w run id i) y = issued (issue_grant w run id i y.ledger) y
perform (resolves id v) y = committed (resolve id v y.ledger) y
perform (expires s) y = committed (expire_due s y.ledger) y
perform (others runs approvals) y = record y {
  ledger = record y.ledger { runs = runs; approvals = approvals };
}

unfoldable pub perform_all : List Call → System → System
perform_all [] y = y
perform_all (c ∷ rest) y = perform_all rest (perform c y)
