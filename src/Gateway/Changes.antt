-- ===== src/Gateway/Changes.antt =====
-- apps/control-plane-api/src/actions/action-gateway.ts, `changeSet`: the files that a thread has written.
use employee_agent_platform.Prelude.{
  ℕ, ◌+◌, Bool, true, false, ◌&&◌, ◌||◌, Option, none, some, List, [], ◌∷◌, ◌==◌, ltb, length,
  str_eq, if◌then◌else◌, is_some,
}
use employee_agent_platform.Lifecycle.{RunStepStatus, step_eq}
use employee_agent_platform.Execution.{find_step}
use employee_agent_platform.Gateway.{
  Ledger, ActionRequest, Grant, RunRow, find_by, find_run, FilePath, ChangedFile, sort_by,
}

-- What the JSON of a recorded operation holds: a file's path and content, if it writes one.
abbrev pub ReadWrite : Type 0
ReadWrite = ℕ → Option ChangedFile

abbrev pub path_eq : FilePath → FilePath → Bool
path_eq [] [] = true
path_eq [] (y ∷ q) = false
path_eq (x ∷ p) [] = false
path_eq (x ∷ p) (y ∷ q) = x == y && path_eq p q

abbrev pub path_lt : FilePath → FilePath → Bool
path_lt [] [] = false
path_lt [] (y ∷ q) = true
path_lt (x ∷ p) [] = false
path_lt (x ∷ p) (y ∷ q) = ltb x y || (x == y && path_lt p q)

-- `path.startsWith(directory + '/') ? path.slice(directory.length + 1)`; 47 is `/`.
unfoldable pub relative_to : FilePath → FilePath → Option FilePath
relative_to [] [] = none
relative_to [] (c ∷ path) = if c == 47 then some path else none
relative_to (d ∷ directory) [] = none
relative_to (d ∷ directory) (c ∷ path) = if d == c then relative_to directory path else none

-- `latest.set(path, content)`
unfoldable pub put_file : ChangedFile → List ChangedFile → List ChangedFile
put_file f [] = f ∷ []
put_file f (g ∷ l) = if path_eq g.path f.path then f ∷ l else g ∷ put_file f l

unfoldable pub insert_path : ChangedFile → List ChangedFile → List ChangedFile
insert_path f [] = f ∷ []
insert_path f (g ∷ l) = if path_lt g.path f.path then g ∷ insert_path f l else f ∷ g ∷ l

unfoldable pub sort_paths : List ChangedFile → List ChangedFile
sort_paths [] = []
sort_paths (f ∷ l) = insert_path f (sort_paths l)

-- The loop over the recorded operations, in their order.
abbrev pub put_under : FilePath → Option ChangedFile → List ChangedFile → List ChangedFile
put_under directory none latest = latest
put_under directory (some f) latest = elim (relative_to directory f.path) [
  | none ↦ latest
  | some path ↦ put_file (record f { path = path }) latest
]

unfoldable pub collect : FilePath → List (Option ChangedFile) → List ChangedFile → List ChangedFile
collect directory [] latest = latest
collect directory (w ∷ rest) latest = collect directory rest (put_under directory w latest)

abbrev step_completed : ℕ → List RunRow → Bool
step_completed step_id [] = false
step_completed step_id (r ∷ l) =
    elim (find_step step_id r.state.steps) [
      | none ↦ false
      | some t ↦ step_eq t.status RunStepStatus.completed
    ]
    || step_completed step_id l

abbrev in_thread : ℕ → Option RunRow → Bool
in_thread thread_id none = false
in_thread thread_id (some r) = r.state.thread_id == thread_id

-- The recorded operation of a granted `repository.write` of the thread whose step completed.
abbrev pub is_recorded : ℕ → Ledger → ActionRequest → Bool
is_recorded thread_id l q =
    str_eq q.action "repository.write"
    && (in_thread thread_id (find_run q.run_id l)
        && (step_completed q.step_id l.runs
            && is_some (find_by (λ (g : Grant). g.request_id) q.id l.grants)))

abbrev operation_of : ReadWrite → Option ℕ → Option ChangedFile
operation_of read none = none
operation_of read (some parameters) = read parameters

unfoldable pub recorded_writes :
    ReadWrite → ℕ → Ledger → List ActionRequest → List (Option ChangedFile)
recorded_writes read thread_id l [] = []
recorded_writes read thread_id l (q ∷ rest) =
    if is_recorded thread_id l q
    then operation_of read q.parameters ∷ recorded_writes read thread_id l rest
    else recorded_writes read thread_id l rest

abbrev pub total_bytes : List ChangedFile → ℕ
total_bytes [] = 0
total_bytes (f ∷ l) = f.bytes + total_bytes l

abbrev pub max_files : ℕ
max_files = 100

-- 1024 * 1024
abbrev pub max_bytes : ℕ
max_bytes = 1048576

pub data Changes : Type 0 where
  empty too_large : Changes
  files : List ChangedFile → Changes

abbrev pub limited : List ChangedFile → Changes
limited [] = empty
limited (f ∷ l) =
    if ltb max_files (length (f ∷ l)) || ltb max_bytes (total_bytes (f ∷ l))
    then too_large
    else files (f ∷ l)

-- `ORDER BY created_at, seq`
abbrev pub in_order : Ledger → List ActionRequest
in_order l = sort_by (λ q. q.created_at) l.requests

unfoldable pub change_set : ReadWrite → ℕ → FilePath → Ledger → Changes
change_set read thread_id directory l =
    limited (sort_paths (collect directory (recorded_writes read thread_id l (in_order l)) []))
