-- ===== src/Gateway/Registry.antt =====
-- apps/control-plane-api/src/actions/action-registry.ts and execution-actions.ts: which actions the
-- control plane executes through a connector, which an execution runtime performs under a grant, and
-- the scope of each. Parsing by the schemas and of URLs is third-party code, of which `World` gives the
-- results: the schemas' checks, and comparisons of a URL with the agent's configuration.
use employee_agent_platform.Prelude.{
  ℕ, String, Bool, true, false, ◌&&◌, Option, none, some, List, [], ◌∷◌, any, str_eq, if◌then◌else◌,
}

pub data Handler : Type 0 where
  jira_issue_create jira_read pull_request_create : Handler

pub data Effect : Type 0 where
  reads writes : Effect

unfoldable pub control_plane_action : String → Option Handler
control_plane_action action =
    if str_eq action "jira.issue.create"
    then some jira_issue_create
    else if str_eq action "jira.read"
    then some jira_read
    else if str_eq action "repository.pull_request.create"
    then some pull_request_create
    else none

abbrev pub effect : Handler → Effect
effect jira_issue_create = writes
effect jira_read = reads
effect pull_request_create = writes

abbrev pub is_write : Effect → Bool
is_write reads = false
is_write writes = true

abbrev pub connector_provider : Handler → String
connector_provider jira_issue_create = "jira"
connector_provider jira_read = "jira"
connector_provider pull_request_create = "github"

abbrev pub required_capability : Handler → String
required_capability jira_issue_create = "issueTracker.write"
required_capability jira_read = "issueTracker.read"
required_capability pull_request_create = "sourceControl.write"

-- Validated parameters: what is read of them. A project is that of the issue's key.
pub data Parameters : Type 0 where
  issue_draft : (project : String) → Parameters
  issue_reference : (project key : String) → Parameters
  pull_request : (repository : String) (directory : List ℕ) → Parameters

pub record Settings : Type 0 where
  pub allowed_projects : List String
  pub allowed_repositories : List String

-- What an agent's signed configuration says, where it is compared: `lower` is `toLowerCase`.
pub record Configuration : Type 0 where
  pub lower : String → String
  pub is_repository : String → Bool
  pub same_repository : String → Bool
  pub same_qa_origin : String → Bool
  pub same_registry : String → Bool
  pub project_scripts : List String

abbrev pub includes : String → List String → Bool
includes x l = any (λ y. str_eq y x) l

abbrev pub handler_in_scope : Parameters → Settings → Configuration → Bool
handler_in_scope (issue_draft project) s c = includes project s.allowed_projects
handler_in_scope (issue_reference project key) s c = includes project s.allowed_projects
handler_in_scope (pull_request repository directory) s c =
    any (λ allowed. str_eq (c.lower allowed) (c.lower repository)) s.allowed_repositories
    && c.is_repository repository

-- The workspace directory whose recorded writes the action publishes.
abbrev pub change_set_directory : Parameters → Option (List ℕ)
change_set_directory (issue_draft project) = none
change_set_directory (issue_reference project key) = none
change_set_directory (pull_request repository directory) = some directory

pub data ExecutionAction : Type 0 where
  repository_read repository_write workspace_command dependencies_install playwright_run :
      ExecutionAction

pub data Operation : Type 0 where
  git_checkout : (url : String) → Operation
  git_status file_read : Operation
  file_write : Operation
  command : (name : String) (args : List String) → Operation
  install : (registry : String) → Operation
  run_playwright : (base_url : String) → Operation

unfoldable pub execution_action : String → Option ExecutionAction
execution_action action =
    if str_eq action "repository.read"
    then some repository_read
    else if str_eq action "repository.write"
    then some repository_write
    else if str_eq action "workspace.command"
    then some workspace_command
    else if str_eq action "workspace.dependencies.install"
    then some dependencies_install
    else if str_eq action "qa.execute_playwright"
    then some playwright_run
    else none

-- `operations.includes(operation.kind)`
abbrev pub allows_operation : ExecutionAction → Operation → Bool
allows_operation repository_read (git_checkout url) = true
allows_operation repository_read git_status = true
allows_operation repository_read file_read = true
allows_operation repository_write file_write = true
allows_operation workspace_command (command name args) = true
allows_operation dependencies_install (install registry) = true
allows_operation playwright_run (run_playwright url) = true
allows_operation _ _ = false

abbrev runs_script : List String → List String → Bool
runs_script scripts (run ∷ script ∷ []) = str_eq run "run" && includes script scripts
runs_script scripts _ = false

-- `inScope`, for an operation that the action allows.
abbrev pub operation_in_scope : ExecutionAction → Operation → Configuration → Bool
operation_in_scope repository_read (git_checkout url) c = c.same_repository url
operation_in_scope repository_read _ c = true
operation_in_scope repository_write _ c = true
operation_in_scope workspace_command (command name args) c =
    str_eq name "npm" && runs_script c.project_scripts args
operation_in_scope workspace_command _ c = false
operation_in_scope dependencies_install (install registry) c = c.same_registry registry
operation_in_scope dependencies_install _ c = false
operation_in_scope playwright_run (run_playwright url) c = c.same_qa_origin url
operation_in_scope playwright_run _ c = false

abbrev pub default_max_processes : ℕ
default_max_processes = 64

abbrev pub max_processes : ExecutionAction → ℕ
max_processes playwright_run = 256
max_processes repository_read = default_max_processes
max_processes repository_write = default_max_processes
max_processes workspace_command = default_max_processes
max_processes dependencies_install = default_max_processes

-- The hosts that an operation needs: `host_of` reads a URL, and gives none of a checkout that is not
-- over https.
abbrev pub hosts_of : (String → List String) → Operation → List String
hosts_of host_of (git_checkout url) = host_of url
hosts_of host_of (install registry) = host_of registry
hosts_of host_of (run_playwright url) = host_of url
hosts_of host_of git_status = []
hosts_of host_of file_read = []
hosts_of host_of file_write = []
hosts_of host_of (command name args) = []
