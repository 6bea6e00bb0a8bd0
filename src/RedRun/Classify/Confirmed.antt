-- ===== src/RedRun/Classify/Confirmed.antt =====
-- What a confirmed red run is, told without the order of the tests in
-- agent/container/red_classification.py.
use bridle.Workflow.Machine.{ModificationEvent}
use bridle.RedRun.Classify.Steps.{
  HasPassed, HasRed, append-nil, expected_lem, in_time_lem, without-contains, collected_lem,
  missing_lem, not_passed_lem, others_lem,
}
use bridle.RedRun.Evidence.{
  all_collection_errors, uncontracted_failures, FrozenTestContract, any_timed_out, without,
  Manifest, CaseResult, case_id_by_node, observed_command_ids, is_harmless, evidence_by_case_id,
  all_case_results, contracted_ids,
}
use bridle.RedRun.Classify.{
  expected_red, missing_ids, expected_outcomes, not_passed, Evidence, is_infrastructure_error,
  final_verdict, classify_outcomes, event_for_red_classification, RedClassificationResult,
  classify_cases, classify_commands, classify_expected, classify_baseline,
  classify_red_verification,
}
use bridle.Errors.{ok, >>=-eq-ok, ok-injective}
use bridle.Prelude.{
  ◌∙◌, List, [], ◌∷◌, ◌++◌, none, true, false, inl, inr, refl, String, ◌≡◌, All, arith, ◌⊎◌, ◌≢◌,
  contains, string_eq, ap,
}

-- Every command of the contract ran in time and reported, without an error of the infrastructure or
-- of the collection; every contracted case has evidence; every case that is not expected to fail
-- passed; every case that is expected to fail passed or failed by an assertion, and one of them did
-- fail; and no case outside the contract failed.
pub record IsExpectedRed (contract : FrozenTestContract) (manifest : Manifest) : Type 0 where
  pub in_time : All (λ c. c.is_timed_out ≡ false) manifest.results
  pub is_code : is_infrastructure_error manifest.error_code ≡ false
  pub reported :
      All (λ id. contains (observed_command_ids manifest.results) id ≡ true) contract.command_ids
  pub collected : All (λ c. c.collection_errors ≡ []) manifest.results
  pub covered :
      All
        (λ id. evidence_by_case_id contract.cases (all_case_results manifest.results) id ≢ none)
        (contracted_ids contract)
  pub baseline :
      All
        (λ id.
          (contains contract.expected_failure_case_ids id ≡ true)
          ⊎ HasPassed (evidence_by_case_id contract.cases (all_case_results manifest.results)) id)
        (contracted_ids contract)
  pub expected :
      All
        (λ id.
          HasPassed (evidence_by_case_id contract.cases (all_case_results manifest.results)) id
          ⊎ HasRed (evidence_by_case_id contract.cases (all_case_results manifest.results)) id)
        contract.expected_failure_case_ids
  pub some_red :
      (id : String) × (contains contract.expected_failure_case_ids id ≡ true)
      × HasRed (evidence_by_case_id contract.cases (all_case_results manifest.results)) id
  pub no_others :
      All
        (λ r. (case_id_by_node contract.cases r.node_id ≢ none) ⊎ (is_harmless r ≡ true))
        (all_case_results manifest.results)

final_inv :
    (red unexpected : List String)
    → (final_verdict red unexpected).classification ≡ expected_red
    → (unexpected ≡ []) × (red ≢ [])
unfolding final_verdict
final_inv red unexpected h = ground arith

module _ (contract : FrozenTestContract) (r : RedClassificationResult)
    (confirmed : r.classification ≡ expected_red) where
  expected_inv :
      (rs : List CaseResult) (evidence : Evidence)
      → classify_expected contract rs evidence ≡ ok r
      → (p : List String × List String) × (expected_outcomes evidence
            contract.expected_failure_case_ids
          ≡ ok p)
        × (uncontracted_failures contract.cases rs ≡ [])
        × (p.1 ≡ [])
        × (p.0 ≢ [])
  unfolding classify_expected
  expected_inv rs evidence h =
      let (p, e, q) =
        >>=-eq-ok (expected_outcomes evidence contract.expected_failure_case_ids) _ h in
      let (none_left, red) =
        final_inv p.0 (uncontracted_failures contract.cases rs ++ p.1)
          (ap (λ x. x.classification) (ok-injective _ r q) ∙ confirmed) in
      let (others, expected) = append-nil (uncontracted_failures contract.cases rs) p.1 none_left in
      (p, e, others, expected, red)

  baseline_inv :
      (rs : List CaseResult) (evidence : Evidence) (failed : List String)
      → classify_baseline contract rs evidence failed ≡ ok r
      → (failed ≡ []) × (classify_expected contract rs evidence ≡ ok r)
  unfolding classify_baseline
  baseline_inv rs evidence [] h = (refl, h)
  baseline_inv rs evidence (x ∷ failed) h = absurd (ground arith)

  cases_inv :
      (rs : List CaseResult)
      → classify_cases contract rs ≡ ok r
      → (missing_ids (evidence_by_case_id contract.cases rs) (contracted_ids contract) ≡ [])
        × (classify_outcomes contract rs (evidence_by_case_id contract.cases rs) ≡ ok r)
  unfolding classify_cases
  cases_inv rs h = ground arith

  commands_inv :
      (manifest : Manifest)
      → classify_commands contract manifest ≡ ok r
      → (without contract.command_ids (observed_command_ids manifest.results) ≡ [])
        × (all_collection_errors manifest.results ≡ [])
        × (classify_cases contract (all_case_results manifest.results) ≡ ok r)
  unfolding classify_commands
  commands_inv manifest h = ground arith

  red_inv :
      (manifest : Manifest)
      → classify_red_verification contract manifest ≡ ok r
      → (any_timed_out manifest.results ≡ false)
        × (is_infrastructure_error manifest.error_code ≡ false)
        × (classify_commands contract manifest ≡ ok r)
  unfolding classify_red_verification
  red_inv manifest h = ground arith

event_inv :
    (r : RedClassificationResult)
    → event_for_red_classification r ≡ ModificationEvent.red_confirmed
    → r.classification ≡ expected_red
unfolding event_for_red_classification
event_inv r h = ground arith

-- A manifest whose verdict leads to the event `red_confirmed` shows an expected red run of the
-- contract: everything ran in time and was collected, the baseline passed, every expected case
-- passed or failed by an assertion and at least one failed, and no other case failed.
pub event_for-IsExpectedRed :
    (contract : FrozenTestContract) (manifest : Manifest) (r : RedClassificationResult)
    → classify_red_verification contract manifest ≡ ok r
    → event_for_red_classification r ≡ ModificationEvent.red_confirmed
    → IsExpectedRed contract manifest
unfolding classify_outcomes
event_for-IsExpectedRed contract manifest r h event =
    let confirmed = event_inv r event in
    let rs = all_case_results manifest.results in
    let evidence = evidence_by_case_id contract.cases rs in
    let (in_time, is_code, h₁) = red_inv contract r confirmed manifest h in
    let (reported, collected, h₂) = commands_inv contract r confirmed manifest h₁ in
    let (covered, h₃) = cases_inv contract r confirmed rs h₂ in
    let (failed, passing, h₄) =
      >>=-eq-ok
        (not_passed evidence (without (contracted_ids contract) contract.expected_failure_case_ids))
        _ h₃ in
    let (no_failed, h₅) = baseline_inv contract r confirmed rs evidence failed h₄ in
    let (p, outcomes, others, none_left, some_failed) =
      expected_inv contract r confirmed rs evidence h₅ in
    let (expected, red) =
      expected_lem evidence contract.expected_failure_case_ids p outcomes none_left in
    record {
      in_time = in_time_lem manifest.results in_time;
      is_code = is_code;
      reported =
          without-contains contract.command_ids (observed_command_ids manifest.results) reported;
      collected = collected_lem manifest.results collected;
      covered = missing_lem evidence (contracted_ids contract) covered;
      baseline =
          not_passed_lem evidence (contracted_ids contract) contract.expected_failure_case_ids
            (passing ∙ ap ok no_failed);
      expected = expected;
      some_red = elim red [ inl e ↦ absurd (some_failed e) | inr found ↦ found ];
      no_others = others_lem contract.cases rs others;
    }
