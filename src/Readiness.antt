-- ===== src/Readiness.antt =====
-- packages/readiness/src/assess.ts: what is assessed, what has been proven against the pilot, and the
-- status of one capability. Identifiers, files, titles, commits and environments are numbers, since they
-- are only compared; a time is in milliseconds. A reason keeps its kind and what it names, not its text.
pub mod Assess
pub mod Ready
pub mod Tests
use employee_agent_platform.Prelude.{
  ℕ, ◌+◌, ◌*◌, Bool, true, false, ◌&&◌, ◌||◌, not, Option, none, some, List, [], ◌∷◌, ◌++◌, any,
  all, length, ◌==◌, leb, ltb, if◌then◌else◌, map,
}

pub data Status : Type 0 where
  green amber red : Status

pub record Proof : Type 0 where
  pub file : ℕ
  pub test : ℕ

pub record ProofSuite : Type 0 where
  pub file : ℕ
  pub describe : ℕ
  pub minimum_tests : ℕ

pub record Capability : Type 0 where
  pub id : ℕ
  pub minimum : Status
  pub proofs : List Proof
  pub proof_suites : List ProofSuite
  pub operational_proofs : List Proof
  pub live_proofs : List ℕ
  pub limitations : List ℕ

pub data Severity : Type 0 where
  blocking accepted informational : Severity

pub record Limitation : Type 0 where
  pub id : ℕ
  pub severity : Severity
  pub resolved_by : Option ℕ

pub record Assessment : Type 0 where
  pub capabilities : List Capability
  pub limitations : List Limitation
  pub live_proofs : List ℕ

pub data LiveStatus : Type 0 where
  passed failed not_run : LiveStatus

-- `proofs` is the object of the statuses, read by key.
pub record OperationalRecord : Type 0 where
  pub generated_at : ℕ
  pub commit : Option ℕ
  pub environment : ℕ
  pub proofs : ℕ → Option LiveStatus

pub data TestStatus : Type 0 where
  passed failed skipped : TestStatus

pub record TestOutcome : Type 0 where
  pub file : ℕ
  pub title : ℕ
  pub ancestors : List ℕ
  pub status : TestStatus

pub data Outcome : Type 0 where
  passed failed skipped missing : Outcome

pub record LiveProofResult : Type 0 where
  pub id : ℕ
  pub status : LiveStatus
  pub evidence : Option ℕ

-- Seven days.
abbrev pub live_proof_max_age_ms : ℕ
live_proof_max_age_ms = 604800000

abbrev pub filter : {A : Type 0} → (A → Bool) → List A → List A
filter p [] = []
filter p (x ∷ l) = if p x then x ∷ filter p l else filter p l

abbrev pub find_first : {A : Type 0} → (A → Bool) → List A → Option A
find_first p [] = none
find_first p (x ∷ l) = if p x then some x else find_first p l

-- `sort` by descending time: it is stable.
unfoldable pub insert_newest : OperationalRecord → List OperationalRecord → List OperationalRecord
insert_newest x [] = x ∷ []
insert_newest x (y ∷ l) =
    if leb y.generated_at x.generated_at then x ∷ y ∷ l else y ∷ insert_newest x l

unfoldable pub newest_first : List OperationalRecord → List OperationalRecord
newest_first [] = []
newest_first (x ∷ l) = insert_newest x (newest_first l)

abbrev pub has_run : Option LiveStatus → Bool
has_run (some LiveStatus.passed) = true
has_run (some LiveStatus.failed) = true
has_run (some LiveStatus.not_run) = false
has_run none = false

abbrev pub same_commit : Option ℕ → Option ℕ → Bool
same_commit (some c) (some d) = d == c
same_commit (some c) none = false
same_commit none d = false

-- A record of the assessed commit, at most a week old and not from the future.
abbrev pub counts : Option ℕ → ℕ → OperationalRecord → Bool
counts commit now r =
    same_commit commit r.commit
    && (leb now (r.generated_at + live_proof_max_age_ms) && leb r.generated_at (now + 60000))

abbrev pub is_passed : Option LiveStatus → Bool
is_passed (some LiveStatus.passed) = true
is_passed (some LiveStatus.failed) = false
is_passed (some LiveStatus.not_run) = false
is_passed none = false

abbrev pub result_from : ℕ → Option OperationalRecord → LiveProofResult
result_from id none = record { id = id; status = LiveStatus.not_run; evidence = none }
result_from id (some r) = record {
  id = id;
  status = if is_passed (r.proofs id) then LiveStatus.passed else LiveStatus.failed;
  evidence = some r.generated_at;
}

unfoldable pub live_proof_result : List OperationalRecord → Option ℕ → ℕ → ℕ → LiveProofResult
live_proof_result ordered commit now id =
    result_from id (find_first (counts commit now) (filter (λ r. has_run (r.proofs id)) ordered))

unfoldable pub live_proof_results :
    List ℕ → List OperationalRecord → Option ℕ → ℕ → List LiveProofResult
live_proof_results definitions records commit now =
    map (live_proof_result (newest_first records) commit now) definitions

abbrev pub is_match : Proof → TestOutcome → Bool
is_match p o = o.file == p.file && o.title == p.test

abbrev pub has_failed : TestOutcome → Bool
has_failed o = elim o.status [ TestStatus.failed ↦ true | _ ↦ false ]

abbrev pub has_passed : TestOutcome → Bool
has_passed o = elim o.status [ TestStatus.passed ↦ true | _ ↦ false ]

abbrev pub outcome_of : List TestOutcome → Outcome
outcome_of [] = Outcome.missing
outcome_of (o ∷ l) =
    if any has_failed (o ∷ l)
    then Outcome.failed
    else if all has_passed (o ∷ l)
    then Outcome.passed
    else Outcome.skipped

unfoldable pub resolve : List TestOutcome → Proof → Outcome
resolve outcomes p = outcome_of (filter (is_match p) outcomes)

unfoldable pub suite_proven : List TestOutcome → ProofSuite → Bool
suite_proven outcomes s =
    let tests = filter (λ o. o.file == s.file && any (λ a. a == s.describe) o.ancestors) outcomes in
    let passed = length (filter has_passed tests) in
    passed == length tests && leb s.minimum_tests passed
