-- ===== src/Lib.antt =====
-- Verification of the employee agent platform: the governance core of the control plane.
--
-- The platform's control plane decides what an agent may do, spends its organization's model budget
-- and moves its runs, and it executes what they ask for. Seven parts are modelled here.
-- Policy.antt is packages/policy-engine/src/index.ts: the platform's decision table
-- (`evaluate_policy`, `is_known_action`, `known_actions`) and Policy v2 (`evaluate_action_policy`).
-- Policy/Keys, Policy/Outcomes and Policy/Conditions prove its properties.
-- Lifecycle.antt is packages/contracts/src/run-lifecycle.ts: the transition tables and
-- `decide_runtime_event`. Lifecycle/Statuses is about the test on statuses, Lifecycle/Transitions about
-- one event, Lifecycle/Reach about sequences.
-- Spending.antt and its children are apps/control-plane-api/src/spending: Price the cost of a call
-- (`costMicros`, `maxOutputWithin`), Alerts the budget alerts (`check`, `acknowledge`), Ledger the
-- rows and queries of one organization, Reserve and Settle the two operations of
-- `ModelSpendingService` that the runtime calls. A reservation reads the current price, the budget
-- and the charged sums, and both operations end in a check of the alerts.
--
-- Execution.antt and its children are apps/control-plane-api/src/execution/execution-service.ts, for one
-- run with its steps and events: Execution the rows and the four private writers (`insertStep`,
-- `appendEvent`, `transitionRun`, `transitionStep`), Decisions what approvals and users do
-- (`onApprovalDecided`, `pauseForApproval`, `cancelRun`, `onApprovalExpired`), Ingest what the runtime
-- sends (`recordRuntimeEvent`), Create `createRun` and sequences of all these calls. It moves runs by
-- the tables of Lifecycle. Invariant says what holds between two calls; Frame, Keeps and
-- Keeps/Ingestion prove that the calls keep it, Create/History that every sequence does; Replay,
-- Progress, Cancel, Cancel/Succeeds and Decided are about single operations.
-- Gateway.antt and its children are apps/control-plane-api/src/actions, for one organization: Gateway
-- the rows, Registry the two registries of actions (action-registry.ts, execution-actions.ts),
-- Reconcile action-reconciliation.ts, and the rest action-gateway.ts: Changes `changeSet`, World and
-- Assess `assess`, Decide `decide` and `expireDue`, Plan and Dispatch `prepareExecution` and
-- `interrupt`, Complete `dispatch`, `completeExecution` and `reconcileInterrupted`, Grants
-- `issueGrant`. A request is assessed with the policy of Policy, pauses and cancels runs by Execution,
-- is authorized again when it is executed, and is recorded before it is sent. System is any sequence
-- of these calls, with the runs and the approvals changed by others in between. Executions, Books,
-- Work, Awaited, Started, Calls and Closing say what each call leaves; System/Once, System/Unresolved,
-- Committed, Authorized, Unknowns, Lifetimes, Delivered, Recorded, Targets, Governed, Written and
-- Expired prove the properties.
-- Transport.antt is the part of apps/control-plane-api/src/runtime/runtime-transport-service.ts by which a
-- runtime asks the gateway: `requestAction`, the first transaction of `executeAction`, and `issueGrant`,
-- with the checks of `ownedLease`, `runningRun` and `runningStep`. Transport/Requests is about requests
-- that are sent again.
-- Readiness.antt and Readiness/Assess are packages/readiness/src/assess.ts: the results of live proofs,
-- the status of a capability and the report of the whole (`assess`); Readiness/Ready is about a report
-- that calls the pilot ready.
--
-- Conventions. An operation that changes the database takes the rows and returns the new ones; an
-- operation that throws returns an error, since its transaction is rolled back. Every query binds one
-- organization, and every transaction is SERIALIZABLE and is run again when it conflicts
-- (apps/control-plane-api/src/db/pg-store.ts), so a model is of one organization and its operations are
-- atomic; some calls of the spending services take an advisory lock of the organization besides.
-- Identifiers, hashes and times are numbers where they are only compared.
-- What the gateway asks others for (a connector's answer, the signed manifest, the blueprint, an override,
-- whether a secret resolves) and what libraries compute (schemas, URLs, digests) is in `World` or an
-- argument of the call, and the theorems are about all of them.
-- Random identifiers, the time, the hash of a request and the month of a time are arguments.
-- A `number` of the source is an exact natural number or integer here. No fuel is used: every loop is
-- over a list.
--
-- Not modelled: input schemas, row-level security, telemetry, and the SQL text itself; conversations;
-- audit events; the texts of summaries; the components other than these seven.
mod Prelude
pub mod Policy
pub mod Lifecycle
pub mod Spending
pub mod Execution
pub mod Gateway
pub mod Transport
pub mod Readiness
