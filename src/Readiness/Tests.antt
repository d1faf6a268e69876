-- ===== src/Readiness/Tests.antt =====
-- packages/readiness/src/assess.ts: one capability that is proven.
use employee_agent_platform.Prelude.{◌≡◌, refl, true, some, [], ◌∷◌, any, all}
use employee_agent_platform.Readiness.{
  amber, Proof, Capability, Assessment, LiveStatus, OperationalRecord, TestStatus, TestOutcome,
  insert_newest, newest_first, live_proof_result, live_proof_results, resolve, suite_proven,
}
use employee_agent_platform.Readiness.Assess.{
  is_empty, get_last, is_resolved, open_limitations, code_reasons, code_softer, code_status,
  live_of, reasons_against, softer_reasons, report, code_meets, structural_problems, code_passed,
  assess,
}
use employee_agent_platform.Readiness.Ready.{proven, shows, assess_ready}

abbrev proof : Proof
proof = record { file = 1; test = 2 }

abbrev capability : Capability
capability = record {
  id = 3;
  minimum = amber;
  proofs = proof ∷ [];
  proof_suites = [];
  operational_proofs = [];
  live_proofs = 4 ∷ [];
  limitations = [];
}

abbrev assessment : Assessment
assessment = record { capabilities = capability ∷ []; limitations = []; live_proofs = 4 ∷ [] }

abbrev test_outcome : TestOutcome
test_outcome = record { file = 1; title = 2; ancestors = []; status = TestStatus.passed }

-- One record of each age: the older one says that the live proof failed.
abbrev validated : OperationalRecord
validated = record {
  generated_at = 1000;
  commit = some 7;
  environment = 5;
  proofs = λ _. some LiveStatus.passed;
}

abbrev stale : OperationalRecord
stale = record {
  generated_at = 10;
  commit = some 7;
  environment = 5;
  proofs = λ _. some LiveStatus.failed;
}

assess_ready_example :
    (all (proven (test_outcome ∷ [])) (capability ∷ []) ≡ true)
    × (all (λ id. any (shows (some 7) 2000 id) (stale ∷ validated ∷ [])) (4 ∷ []) ≡ true)
    × (is_empty (
          structural_problems assessment
            (live_proof_results (4 ∷ []) (stale ∷ validated ∷ []) (some 7) 2000))
        ≡ true)
unfolding assess report live_proof_results live_proof_result newest_first insert_newest resolve
    suite_proven get_last is_resolved open_limitations code_reasons code_softer code_status live_of
    reasons_against softer_reasons code_meets structural_problems code_passed
assess_ready_example =
    assess_ready assessment (test_outcome ∷ []) (stale ∷ validated ∷ []) (some 7) 2000 refl
