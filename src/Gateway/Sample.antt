-- ===== src/Gateway/Sample.antt =====
-- apps/control-plane-api/src/actions: an issue that is created once approved, whose outcome is then
-- unknown; and a grant to read a repository.
use employee_agent_platform.Prelude.{Option, ℕ, ◌+◌, true, none, some, List, [], ◌∷◌}
use employee_agent_platform.Policy.{allow, low, medium}
use employee_agent_platform.Lifecycle.{RunStepStatus, AgentRunStatus}
use employee_agent_platform.Execution.{Stamp, ApprovalStatus}
use employee_agent_platform.Gateway.{
  Ledger, RunRow, ActionRequest, ApprovalRow, ActionExecution, allowed, approval_required, Grant,
  dispatching, Reconciliation, required, ExecutionStatus, UnknownReason, ChangedFile,
}
use employee_agent_platform.Gateway.Registry.{
  issue_draft, Configuration, git_status, jira_issue_create,
}
use employee_agent_platform.Gateway.Decide.{Submission}
use employee_agent_platform.Gateway.World.{World, Manifest, Bundle, Connection}
use employee_agent_platform.Gateway.Plan.{PendingDispatch}
use employee_agent_platform.Gateway.Complete.{unconfirmed}
use employee_agent_platform.Gateway.Grants.{Issue}
use employee_agent_platform.Gateway.System.{Call, prepares, completes, interrupts}

abbrev pub connection : Connection
connection = record {
  id = 5;
  settings = record { allowed_projects = "ENG" ∷ []; allowed_repositories = [] };
  secret_ref = 6;
}

abbrev pub manifest : Manifest
manifest = record {
  is_v2 = true;
  manifest_id = 3;
  tools = 1 ∷ [];
  blueprint_digest = some 9;
  capabilities =
      record { action = "jira.issue.create"; outcome = allow }
      ∷ record { action = "repository.read"; outcome = allow }
      ∷ [];
  connectors = record { id = "jira"; capabilities = "issueTracker.write" ∷ [] } ∷ [];
}

abbrev pub bundle : Bundle
bundle = record {
  digest = 9;
  tools =
      record {
        id = 1;
        version = 1;
        governed_actions = "jira.issue.create" ∷ "repository.read" ∷ [];
        timeout_ms = 500;
      }
      ∷ [];
}

abbrev pub configuration : Configuration
configuration = record {
  lower = λ s. s;
  is_repository = λ _. true;
  same_repository = λ _. true;
  same_qa_origin = λ _. true;
  same_registry = λ _. true;
  project_scripts = [];
}

abbrev pub world : World
world = record {
  organization_id = "o";
  agent_id = "a";
  employee_id = "e";
  manifest = some manifest;
  bundle = some bundle;
  configuration = configuration;
  digest = λ p. p + 1000;
  digest_files = λ _. 0;
  handler_parameters = λ h p. some (issue_draft "ENG");
  resource_of = λ _. ("project", "ENG");
  operation = λ _. some git_status;
  operation_resource = λ _. ("workspace", "w");
  read_write = λ _. none;
  connection = λ _. some connection;
  override = λ _. none;
  has_secret = λ _. true;
  host_of = λ _. [];
}

abbrev pub run : RunRow
run = record {
  id = 1;
  manifest_id = 3;
  state = record {
    thread_id = 7;
    employee_id = 2;
    agent_id = 3;
    status = AgentRunStatus.running;
    status_reason = none;
    runtime_sequence = 0;
    started_at = some 1;
    completed_at = none;
    steps = [];
    events = [];
    approvals = [];
    artifacts = [];
    stopped = [];
  };
}

abbrev pub approval : ℕ → ApprovalRow
approval n = record {
  id = n;
  run_id = 1;
  step_id = 21;
  status = ApprovalStatus.approved;
  expires_at = some 900;
}

-- Two requests of the same write.
abbrev pub request : ℕ → ℕ → ActionRequest
request n a = record {
  id = n;
  run_id = 1;
  step_id = 21;
  action = "jira.issue.create";
  tool_id = 1;
  decision = approval_required;
  risk = medium;
  approval_id = some a;
  parameters = some 77;
  change_set = none;
  request_hash = 1;
  created_at = 60;
}

abbrev pub ledger : Ledger
ledger = record {
  runs = run ∷ [];
  requests = request 11 50 ∷ request 12 51 ∷ [];
  approvals = approval 50 ∷ approval 51 ∷ [];
  executions = [];
  reconciliations = [];
  grants = [];
}

abbrev pub stamp : Stamp
stamp = record { now = 100; first_id = 200; second_id = 201 }

abbrev pub sent : PendingDispatch
sent = record {
  request_id = 11;
  run_id = 1;
  handler = jira_issue_create;
  action = "jira.issue.create";
  parameters = 77;
  connection = connection;
  change_set = none;
  payload_digest = 1077;
}

abbrev pub execution : ActionExecution
execution = record {
  request_id = 11;
  run_id = 1;
  connection_id = some 5;
  status = dispatching;
  result = none;
  error_code = none;
  started_at = 100;
  completed_at = none;
}

abbrev pub started : Ledger
started = record ledger { executions = execution ∷ [] }

-- A second row: the execution has ended.
abbrev pub ended_execution : ActionExecution
ended_execution = record execution {
  status = ExecutionStatus.succeeded;
  result = some 4;
  completed_at = some 120;
}

abbrev pub ended : Ledger
ended = record started { executions = ended_execution ∷ [] }

abbrev pub unanswered : Reconciliation
unanswered = record {
  request_id = 11;
  thread_id = 7;
  run_id = 1;
  action = "jira.issue.create";
  payload_digest = 1077;
  reason = UnknownReason.connector_outcome_unknown;
  state = required;
  created_at = 150;
  resolved_by = none;
  resolved_at = none;
  note = none;
}

abbrev pub waiting : Ledger
waiting = record ended { reconciliations = unanswered ∷ [] }

-- The calls for two requests of the same write, with an outcome that nobody knows.
abbrev pub calls : List Call
calls =
    prepares world run 11 21 30000 stamp
    ∷ prepares world run 11 21 30000 stamp
    ∷ completes sent unconfirmed 150
    ∷ prepares world run 12 21 30000 stamp
    ∷ interrupts world 100 30000 90000
    ∷ []

abbrev pub reading : ActionRequest
reading = record {
  id = 13;
  run_id = 1;
  step_id = 21;
  action = "repository.read";
  tool_id = 1;
  decision = allowed;
  risk = low;
  approval_id = none;
  parameters = some 88;
  change_set = none;
  request_hash = 2;
  created_at = 60;
}

abbrev pub ungranted : Ledger
ungranted = record ledger { requests = reading ∷ [] }

abbrev pub issue : ℕ → Issue
issue now = record {
  grant_id = 30;
  step_id = 21;
  stamp = record { now = now; first_id = 200; second_id = 201 };
  lease_for = λ _. none;
}

abbrev pub grant : Grant
grant = record {
  grant_id = 30;
  request_id = 13;
  run_id = 1;
  operation_digest = 1088;
  timeout_ms = 1000;
  max_processes = 64;
  hosts = [];
  credential = none;
  issued_at = 100;
  expires_at = 600100;
}

abbrev pub ready : Ledger
ready = record ungranted { grants = grant ∷ [] }

-- An approval whose time has come, beside one that was granted.
abbrev pub overdue : Ledger
overdue = record ledger {
  approvals =
      record (approval 50) { status = ApprovalStatus.pending; expires_at = some 90 }
      ∷ approval 51
      ∷ [];
}

abbrev pub submission : Submission
submission = record {
  request_id = 14;
  step_id = 21;
  question = record {
    action = "jira.issue.create";
    tool_id = 1;
    tool_version = none;
    parameters = some 77;
    input_digest = none;
  };
  request_hash = 3;
}

-- A thread that has written `r/a` twice; 114, 47, 97 are the codes.
abbrev pub file : ℕ → ChangedFile
file content = record { path = 114 ∷ 47 ∷ 97 ∷ []; content = content; bytes = 4 }

abbrev pub reads_file : ℕ → Option ChangedFile
reads_file n = some (file n)

abbrev pub writing : ℕ → ActionRequest
writing n = record reading {
  id = n;
  action = "repository.write";
  parameters = some n;
  created_at = n;
}

abbrev pub with_step : RunStepStatus → RunRow
with_step status = record run {
  state = record run.state {
    steps =
        record { id = 21; sequence = 1; status = status; started_at = some 1; completed_at = none }
        ∷ [];
  };
}

abbrev pub undecided : Ledger
undecided = record ledger { runs = with_step RunStepStatus.running ∷ []; approvals = [] }

abbrev pub written : Ledger
written = record ledger {
  runs = with_step RunStepStatus.completed ∷ [];
  requests = writing 14 ∷ writing 13 ∷ [];
  grants = grant ∷ record grant { request_id = 14 } ∷ [];
}

abbrev pub published_file : ChangedFile
published_file = record { path = 97 ∷ []; content = 14; bytes = 4 }
