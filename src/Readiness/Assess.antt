-- ===== src/Readiness/Assess.antt =====
-- packages/readiness/src/assess.ts: `assess`.
use employee_agent_platform.Prelude.{
  ℕ, Bool, true, false, ◌&&◌, ◌||◌, not, Option, none, some, List, [], ◌∷◌, ◌++◌, any, all, ◌==◌,
  leb, if◌then◌else◌, map, is_some,
}
use employee_agent_platform.Readiness.{
  Status, green, amber, red, Proof, ProofSuite, Capability, Severity, blocking, accepted,
  Limitation, Assessment, LiveStatus, OperationalRecord, TestOutcome, Outcome, LiveProofResult,
  live_proof_results, resolve, suite_proven,
}

-- Why a capability is not proven, or not wholly.
pub data Reason : Type 0 where
  no_proof : Reason
  proof_not_passed : Outcome → Proof → Reason
  suite_not_proven : ProofSuite → Reason
  blocking_limitation : ℕ → Reason
  operational_not_passed : Outcome → Proof → Reason
  live_proof_failed : ℕ → Reason
  not_exercised : Proof → Reason
  live_proof_not_established : ℕ → Reason
  accepted_limitation : ℕ → Reason

pub data Problem : Type 0 where
  duplicate_limitation duplicate_live_proof duplicate_capability : Problem
  unknown_resolver : ℕ → Problem
  unknown_limitation : ℕ → ℕ → Problem
  unknown_live_proof : ℕ → ℕ → Problem
  below_minimum : ℕ → Problem

pub record CapabilityReport : Type 0 where
  pub id : ℕ
  pub status : Status
  pub minimum : Status
  pub meets_minimum : Bool
  pub reasons : List Reason
  pub live_proofs : List LiveProofResult
  pub limitations : List Limitation

pub record ReadinessReport : Type 0 where
  pub capabilities : List CapabilityReport
  pub live_proofs : List LiveProofResult
  pub code_proofs_passed : Bool
  pub operational_proofs_passed : Bool
  pub ready_for_controlled_pilot : Bool
  pub problems : List Problem

abbrev pub rank : Status → ℕ
rank red = 0
rank amber = 1
rank green = 2

-- The map from identifiers that is made of a list: the last entry wins.
unfoldable pub get_last : {A : Type 0} → (A → ℕ) → ℕ → List A → Option A
get_last key id [] = none
get_last key id (x ∷ l) = elim (get_last key id l) [
  | some y ↦ some y
  | none ↦ if key x == id then some x else none
]

-- Whether the map is smaller than the list.
abbrev pub has_duplicate : List ℕ → Bool
has_duplicate [] = false
has_duplicate (x ∷ l) = any (λ y. y == x) l || has_duplicate l

abbrev pub flat_map : {A B : Type 0} → (A → List B) → List A → List B
flat_map f [] = []
flat_map f (x ∷ l) = f x ++ flat_map f l

abbrev pub when : {A : Type 0} → Bool → A → List A
when b x = if b then x ∷ [] else []

abbrev pub is_outcome_passed : Outcome → Bool
is_outcome_passed o = elim o [ Outcome.passed ↦ true | _ ↦ false ]

abbrev pub is_live_passed : LiveStatus → Bool
is_live_passed s = elim s [ LiveStatus.passed ↦ true | _ ↦ false ]

-- Whether a limitation's live proof has passed.
unfoldable pub is_resolved : List LiveProofResult → Limitation → Bool
is_resolved live x = elim x.resolved_by [
  | none ↦ false
  | some id ↦ elim (get_last (λ p. p.id) id live) [
    | none ↦ false
    | some p ↦ is_live_passed p.status
  ]
]

abbrev pub open_one : List Limitation → List LiveProofResult → ℕ → List Limitation
open_one limitations live id = elim (get_last (λ x. x.id) id limitations) [
  | none ↦ []
  | some x ↦ when (not (is_resolved live x)) x
]

-- The limitations of a capability that still apply.
unfoldable pub open_limitations : List Limitation → List LiveProofResult → List ℕ → List Limitation
open_limitations limitations live [] = []
open_limitations limitations live (id ∷ l) =
    open_one limitations live id ++ open_limitations limitations live l

abbrev pub proof_reasons : List TestOutcome → List Proof → List Reason
proof_reasons outcomes proofs =
    flat_map
      (λ p.
        when (not (is_outcome_passed (resolve outcomes p)))
          (proof_not_passed (resolve outcomes p) p))
      proofs

abbrev pub suite_reasons : List TestOutcome → List ProofSuite → List Reason
suite_reasons outcomes suites =
    flat_map (λ s. when (not (suite_proven outcomes s)) (suite_not_proven s)) suites

abbrev pub is_blocking : Severity → Bool
is_blocking s = elim s [ blocking ↦ true | _ ↦ false ]

abbrev pub is_accepted : Severity → Bool
is_accepted s = elim s [ accepted ↦ true | _ ↦ false ]

-- An operational proof that failed or is missing counts; one that was skipped only weighs.
abbrev pub operational_reason : Proof → Outcome → List Reason
operational_reason p Outcome.failed = operational_not_passed Outcome.failed p ∷ []
operational_reason p Outcome.missing = operational_not_passed Outcome.missing p ∷ []
operational_reason p Outcome.skipped = []
operational_reason p Outcome.passed = []

abbrev pub operational_softer : Proof → Outcome → List Reason
operational_softer p Outcome.skipped = not_exercised p ∷ []
operational_softer p Outcome.failed = []
operational_softer p Outcome.missing = []
operational_softer p Outcome.passed = []

abbrev pub is_empty : {A : Type 0} → List A → Bool
is_empty [] = true
is_empty (x ∷ l) = false

-- What the code's own proofs say against a capability.
unfoldable pub code_reasons : List TestOutcome → List Limitation → Capability → List Reason
code_reasons outcomes left c =
    when (is_empty c.proofs) no_proof
    ++ (proof_reasons outcomes c.proofs
        ++ (suite_reasons outcomes c.proof_suites
            ++ (flat_map (λ x. when (is_blocking x.severity) (blocking_limitation x.id)) left
                ++ flat_map (λ p. operational_reason p (resolve outcomes p)) c.operational_proofs)))

unfoldable pub code_softer : List TestOutcome → Capability → List Reason
code_softer outcomes c =
    flat_map (λ p. operational_softer p (resolve outcomes p)) c.operational_proofs

abbrev pub status_of : Bool → Bool → Status
status_of none_against none_softer =
    if none_against then (if none_softer then green else amber) else red

unfoldable pub code_status : List TestOutcome → List Limitation → Capability → Status
code_status outcomes left c =
    status_of (is_empty (code_reasons outcomes left c))
      (is_empty (code_softer outcomes c) && (is_empty left && is_empty c.live_proofs))

-- The live proofs that a capability names.
unfoldable pub live_of : List LiveProofResult → List ℕ → List LiveProofResult
live_of live [] = []
live_of live (id ∷ l) =
    elim (get_last (λ p. p.id) id live) [ none ↦ [] | some p ↦ p ∷ [] ] ++ live_of live l

abbrev pub live_reason : LiveProofResult → List Reason
live_reason p = elim p.status [ LiveStatus.failed ↦ live_proof_failed p.id ∷ [] | _ ↦ [] ]

abbrev pub live_softer : LiveProofResult → List Reason
live_softer p = elim p.status [ LiveStatus.not_run ↦ live_proof_not_established p.id ∷ [] | _ ↦ [] ]

unfoldable pub reasons_against :
    List TestOutcome → List Limitation → List LiveProofResult → Capability → List Reason
reasons_against outcomes left live c =
    code_reasons outcomes left c ++ flat_map live_reason (live_of live c.live_proofs)

unfoldable pub softer_reasons :
    List TestOutcome → List Limitation → List LiveProofResult → Capability → List Reason
softer_reasons outcomes left live c =
    code_softer outcomes c
    ++ (flat_map live_softer (live_of live c.live_proofs)
        ++ flat_map (λ x. when (is_accepted x.severity) (accepted_limitation x.id)) left)

unfoldable pub report :
    List TestOutcome → List Limitation → List LiveProofResult → Capability → CapabilityReport
report outcomes limitations live c =
    let left = open_limitations limitations live c.limitations in
    let against = reasons_against outcomes left live c in
    let softer = softer_reasons outcomes left live c in
    let status = status_of (is_empty against) (is_empty softer) in
    record {
      id = c.id;
      status = status;
      minimum = c.minimum;
      meets_minimum = leb (rank c.minimum) (rank status);
      reasons = against ++ softer;
      live_proofs = live_of live c.live_proofs;
      limitations = left;
    }

abbrev pub is_red : Status → Bool
is_red s = elim s [ red ↦ true | _ ↦ false ]

unfoldable pub code_meets :
    List TestOutcome → List Limitation → List LiveProofResult → Capability → Bool
code_meets outcomes limitations live c =
    let status = code_status outcomes (open_limitations limitations live c.limitations) c in
    not (is_red status) && leb (rank c.minimum) (rank status)

-- The problems of a capability's references.
abbrev unknown_references : List Limitation → List LiveProofResult → Capability → List Problem
unknown_references limitations live c =
    flat_map
      (λ id.
        when (not (is_some (get_last (λ x. x.id) id limitations))) (unknown_limitation c.id id))
      c.limitations
    ++ flat_map
        (λ id. when (not (is_some (get_last (λ p. p.id) id live))) (unknown_live_proof c.id id))
        c.live_proofs

abbrev unknown_resolvers : List LiveProofResult → Limitation → List Problem
unknown_resolvers live x = elim x.resolved_by [
  | none ↦ []
  | some id ↦ when (not (is_some (get_last (λ p. p.id) id live))) (unknown_resolver x.id)
]

-- The problems of the assessment itself, whatever the statuses are.
unfoldable pub structural_problems : Assessment → List LiveProofResult → List Problem
structural_problems a live =
    when (has_duplicate (map (λ x. x.id) a.limitations)) duplicate_limitation
    ++ (when (has_duplicate (map (λ p. p.id) live)) duplicate_live_proof
        ++ (flat_map (unknown_resolvers live) a.limitations
            ++ (flat_map (unknown_references a.limitations live) a.capabilities
                ++ when (has_duplicate (map (λ c. c.id) a.capabilities)) duplicate_capability)))

unfoldable pub code_passed : Assessment → List TestOutcome → List LiveProofResult → Bool
code_passed a outcomes live =
    is_empty (structural_problems a live)
    && all (code_meets outcomes a.limitations live) a.capabilities

unfoldable pub assess :
    Assessment → List TestOutcome → List OperationalRecord → Option ℕ → ℕ → ReadinessReport
assess a outcomes records commit now =
    let live = live_proof_results a.live_proofs records commit now in
    let capabilities = map (report outcomes a.limitations live) a.capabilities in
    let structural = structural_problems a live in
    let live_passed = all (λ p. is_live_passed p.status) live in
    record {
      capabilities = capabilities;
      live_proofs = live;
      code_proofs_passed = code_passed a outcomes live;
      operational_proofs_passed = live_passed;
      ready_for_controlled_pilot =
          code_passed a outcomes live
          && (live_passed && all (λ c. not (is_red c.status)) capabilities);
      problems =
          structural
          ++ flat_map (λ c. when (not c.meets_minimum) (below_minimum c.id)) capabilities;
    }
