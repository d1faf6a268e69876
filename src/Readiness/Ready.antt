-- ===== src/Readiness/Ready.antt =====
-- packages/readiness/src/assess.ts: what a report that calls the pilot ready, or a capability green, has
-- behind it.
use employee_agent_platform.Prelude.{
  and_intro, ℕ, ◌+◌, leb, ◌≡◌, refl, Bool, true, false, ◌&&◌, ◌||◌, not, Option, List, [], ◌∷◌,
  ◌++◌, any, all, map, arith, ◌∙◌, ap, sym,
}
use employee_agent_platform.Readiness.{
  Proof, Capability, Limitation, Assessment, OperationalRecord, TestOutcome, LiveProofResult,
  filter, find_first, insert_newest, newest_first, has_run, counts, same_commit, is_passed,
  result_from, live_proof_result, live_proof_results, is_match, has_failed, has_passed, outcome_of,
  resolve,
}
use employee_agent_platform.Readiness.Assess.{
  Reason, is_empty, is_red, is_outcome_passed, is_live_passed, flat_map, when, proof_reasons,
  code_reasons, reasons_against, status_of, report, code_passed, structural_problems, assess,
}

empty-append : {A : Type 0} (l m : List A) → is_empty (l ++ m) ≡ (is_empty l && is_empty m)
empty-append [] m = refl
empty-append (x ∷ l) m = refl

empty-flat_map :
    {A B : Type 0} (f : A → List B) (l : List A)
    → is_empty (flat_map f l) ≡ all (λ x. is_empty (f x)) l
empty-flat_map f [] = refl
empty-flat_map f (x ∷ l) = empty-append (f x) _ ∙ ap (λ b. is_empty (f x) && b) (empty-flat_map f l)

passed_lem : (o : TestOutcome) → (has_failed o && has_passed o) ≡ false
passed_lem o = ground arith

all_matches :
    (p : Proof) (l : List TestOutcome)
    → all has_passed (filter (is_match p) l) ≡ all (λ o. not (is_match p o) || has_passed o) l
all_matches p [] = refl
all_matches p (o ∷ l) = ground (arith, all_matches p l)

some_match :
    (p : Proof) (l : List TestOutcome) → not (is_empty (filter (is_match p) l)) ≡ any (is_match p) l
some_match p [] = refl
some_match p (o ∷ l) = ground (arith, some_match p l)

none_failed : (l : List TestOutcome) → all has_passed l ≡ true → any has_failed l ≡ false
none_failed [] h = refl
none_failed (o ∷ l) h = ground (arith, none_failed l, passed_lem o)

outcome_of_passed :
    (l : List TestOutcome)
    → is_outcome_passed (outcome_of l) ≡ (not (is_empty l) && all has_passed l)
outcome_of_passed [] = refl
outcome_of_passed (o ∷ l) = ground (arith, none_failed (o ∷ l))

-- A proof passes exactly when a test of its file and title ran, and every such test passed.
pub resolve_passed :
    (outcomes : List TestOutcome) (p : Proof)
    → is_outcome_passed (resolve outcomes p)
      ≡ (any (is_match p) outcomes && all (λ o. not (is_match p o) || has_passed o) outcomes)
unfolding resolve
resolve_passed outcomes p =
    outcome_of_passed (filter (is_match p) outcomes)
    ∙ rw (some_match p outcomes, all_matches p outcomes) refl

-- Where the pilot is called ready, a capability names proofs and they all passed.
abbrev pub proven : List TestOutcome → Capability → Bool
proven outcomes c =
    not (is_empty c.proofs) && all (λ p. is_outcome_passed (resolve outcomes p)) c.proofs

empty-proof_reasons :
    (outcomes : List TestOutcome) (l : List Proof)
    → is_empty (proof_reasons outcomes l) ≡ true
    → all (λ p. is_outcome_passed (resolve outcomes p)) l ≡ true
empty-proof_reasons outcomes [] h = refl
empty-proof_reasons outcomes (p ∷ l) h = ground (arith, empty-proof_reasons outcomes l)

when-empty : {A : Type 0} (b : Bool) (x : A) → is_empty (when b x) ≡ not b
when-empty true x = refl
when-empty false x = refl

empty-left : {A : Type 0} (l m : List A) → is_empty (l ++ m) ≡ true → is_empty l ≡ true
empty-left [] m h = refl
empty-left (x ∷ l) m h = h

empty-right : {A : Type 0} (l m : List A) → is_empty (l ++ m) ≡ true → is_empty m ≡ true
empty-right [] m h = h
empty-right (x ∷ l) m h = ground (arith, h)

code_reasons-proven :
    (outcomes : List TestOutcome) (left : List Limitation) (c : Capability)
    → is_empty (code_reasons outcomes left c) ≡ true
    → proven outcomes c ≡ true
unfolding code_reasons
code_reasons-proven outcomes left c h =
    and_intro (sym (when-empty (is_empty c.proofs) Reason.no_proof) ∙ empty-left none_named _ h) (
      empty-proof_reasons outcomes c.proofs
        (empty-left (proof_reasons outcomes c.proofs) _ (empty-right none_named _ h)))
  where
    none_named : List Reason
    none_named = when (is_empty c.proofs) Reason.no_proof

report-proven :
    (outcomes : List TestOutcome) (limitations : List Limitation) (live : List LiveProofResult)
    (c : Capability)
    → not (is_red (report outcomes limitations live c).status) ≡ true
    → proven outcomes c ≡ true
unfolding report reasons_against
report-proven outcomes limitations live c h =
    code_reasons-proven outcomes _ c (empty-left _ _ (nothing_against _ _ h))
  where
    nothing_against : (a b : Bool) → not (is_red (status_of a b)) ≡ true → a ≡ true
    nothing_against true b h = refl
    nothing_against false b h = ground (arith, h)

reports-proven :
    (outcomes : List TestOutcome) (limitations : List Limitation) (live : List LiveProofResult)
    (l : List Capability)
    → all (λ c. not (is_red c.status)) (map (report outcomes limitations live) l) ≡ true
    → all (proven outcomes) l ≡ true
reports-proven outcomes limitations live [] h = refl
reports-proven outcomes limitations live (c ∷ l) h = ground (
  arith,
  h,
  report-proven outcomes limitations live c,
  reports-proven outcomes limitations live l,
)

-- Sorting neither drops nor makes records.
any-insert_newest :
    (p : OperationalRecord → Bool) (x : OperationalRecord) (l : List OperationalRecord)
    → any p (insert_newest x l) ≡ (p x || any p l)
unfolding insert_newest
any-insert_newest p x [] = refl
any-insert_newest p x (y ∷ l) = ground (arith, any-insert_newest p x l)

any-newest_first :
    (p : OperationalRecord → Bool) (l : List OperationalRecord) → any p (newest_first l) ≡ any p l
unfolding newest_first
any-newest_first p [] = refl
any-newest_first p (x ∷ l) =
    any-insert_newest p x (newest_first l) ∙ ap (λ b. p x || b) (any-newest_first p l)

-- A record that shows a live proof for this commit and this time.
abbrev pub shows : Option ℕ → ℕ → ℕ → OperationalRecord → Bool
shows commit now id r =
    (same_commit commit r.commit
      && (leb now (r.generated_at + 604800000) && leb r.generated_at (now + 60000)))
    && is_passed (r.proofs id)

found-shows :
    (counted : OperationalRecord → Bool) (id : ℕ) (l : List OperationalRecord)
    → is_live_passed
        (result_from id (find_first counted (filter (λ r. has_run (r.proofs id)) l))).status
      ≡ true
    → any (λ r. counted r && is_passed (r.proofs id)) l ≡ true
found-shows counted id [] h = ground (arith, h)
found-shows counted id (r ∷ l) h = ground (arith, h, found-shows counted id l)

shown_one :
    (records : List OperationalRecord) (commit : Option ℕ) (now id : ℕ)
    → is_live_passed (live_proof_result (newest_first records) commit now id).status ≡ true
    → any (shows commit now id) records ≡ true
unfolding live_proof_result
shown_one records commit now id h =
    sym (any-newest_first (shows commit now id) records)
    ∙ found-shows (counts commit now) id (newest_first records) h

shown :
    (records : List OperationalRecord) (commit : Option ℕ) (now : ℕ) (definitions : List ℕ)
    → all
        (λ p. is_live_passed p.status)
        (map (live_proof_result (newest_first records) commit now) definitions)
      ≡ true
    → all (λ id. any (shows commit now id) records) definitions ≡ true
shown records commit now [] h = refl
shown records commit now (id ∷ l) h =
    ground (arith, h, shown_one records commit now id, shown records commit now l)

conjuncts : (a b c d : Bool) → ((a && b) && (c && d)) ≡ true → (a ≡ true) × (c ≡ true) × (d ≡ true)
conjuncts a b c d h = ground arith

-- A pilot that is called ready has its proofs: every capability names at least one proof and all of
-- its proofs passed, and for every live proof some record of the assessed commit, at most a week old
-- and at most a minute ahead, says that it passed. No problem of structure was found either.
pub assess_ready :
    (a : Assessment) (outcomes : List TestOutcome) (records : List OperationalRecord)
    (commit : Option ℕ) (now : ℕ)
    → (assess a outcomes records commit now).ready_for_controlled_pilot ≡ true
    → (all (proven outcomes) a.capabilities ≡ true)
      × (all (λ id. any (shows commit now id) records) a.live_proofs ≡ true)
      × (is_empty (structural_problems a (live_proof_results a.live_proofs records commit now))
          ≡ true)
unfolding assess live_proof_results code_passed
assess_ready a outcomes records commit now h =
    let p = conjuncts (is_empty (structural_problems a live)) _ _ _ h in
    (
      reports-proven outcomes a.limitations live a.capabilities p.2,
      shown records commit now a.live_proofs p.1,
      p.0,
    )
  where
    live : List LiveProofResult
    live = live_proof_results a.live_proofs records commit now
