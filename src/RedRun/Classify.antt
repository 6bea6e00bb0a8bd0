-- ===== src/RedRun/Classify.antt =====
-- `classify_red_verification` and `event_for_red_classification` of
-- agent/container/red_classification.py. The tuples of ids that the source sorts stand in the order
-- in which they are found.
use bridle.Workflow.Machine.{ModificationEvent}
use bridle.RedRun.Evidence.{
  evidence_by_case_id, any_timed_out, CaseResult, uncontracted_failures, without, contracted_among,
  observed_command_ids, FrozenTestContract, contracted_ids, all_collection_errors, Manifest,
  all_case_results,
}
use bridle.Prelude.Json.{Json}
pub mod Confirmed
pub mod Steps
pub mod Total
pub mod Complete
use text.Mathlib.Text.{starts_with}
use bridle.Errors.{◌>>◌, ◌>>=◌, ok, raise, Result, key_error}
use bridle.Prelude.{
  ◌∙◌, List, [], ◌∷◌, ◌++◌, none, some, true, false, Option, zero, suc, inl, inr, refl, Bool, ℕ,
  String, contains, if◌then◌else◌, ◌==◌, is_none, ◌||◌, not, string_eq, ◌&&◌,
}

pub data RedClassification : Type 0 where
  expected_red unexpected_red invalid_test infra_error baseline_regression : RedClassification

pub record RedClassificationResult : Type 0 where
  pub classification : RedClassification
  pub error_code : String
  pub failed_case_ids : List String
  pub unexpected_case_ids : List String
  pub baseline_failed_case_ids : List String
  pub collection_errors : List Json

abbrev pub verdict : RedClassification → String → RedClassificationResult
verdict classification error_code = record {
  classification = classification;
  error_code = error_code;
  failed_case_ids = [];
  unexpected_case_ids = [];
  baseline_failed_case_ids = [];
  collection_errors = [];
}

abbrev pub is_empty {ℓ} : {A : Type ℓ} → List A → Bool
is_empty [] = true
is_empty (x ∷ xs) = false

-- `_is_infrastructure_error`
unfoldable pub is_infrastructure_error : String → Bool
is_infrastructure_error error_code =
    contains
      ("active_slot_collect_failed" ∷ "baseline_or_mock_tampered" ∷ "container_exec_failed"
        ∷ "container_wait_timeout" ∷ [])
      error_code
    || starts_with error_code "active_slot_"
    || starts_with error_code "container_"
    || starts_with error_code "control_"

abbrev pub Evidence : Type 0
Evidence = String → Option CaseResult

-- `evidence_by_case_id[case_id]`
unfoldable pub evidence_at : Evidence → String → Result CaseResult
evidence_at evidence case_id = elim (evidence case_id) [ none ↦ raise key_error | some r ↦ ok r ]

-- `contracted_ids - set(evidence_by_case_id)`
unfoldable pub missing_ids : Evidence → List String → List String
missing_ids evidence [] = []
missing_ids evidence (id ∷ ids) =
    let rest = missing_ids evidence ids in if is_none (evidence id) then id ∷ rest else rest

-- `baseline_failed`
unfoldable pub not_passed : Evidence → List String → Result (List String)
unfolding evidence_at
not_passed evidence [] = ok []
not_passed evidence (id ∷ ids) = do
  r ← evidence_at evidence id
  rest ← not_passed evidence ids
  ok (if r.outcome == "passed" then rest else id ∷ rest)

abbrev pub is_red : CaseResult → Bool
is_red r = r.outcome == "failed" && r.failure_type == "AssertionError"

-- `failed_expected`, and what the loop adds to `unexpected`.
unfoldable pub expected_outcomes : Evidence → List String → Result (List String × List String)
unfolding evidence_at
expected_outcomes evidence [] = ok ([], [])
expected_outcomes evidence (id ∷ ids) = do
  r ← evidence_at evidence id
  (failed, unexpected) ← expected_outcomes evidence ids
  ok (
      if is_red r
      then (id ∷ failed, unexpected)
      else if r.outcome == "passed"
      then (failed, unexpected)
      else (failed, id ∷ unexpected))

unfoldable pub final_verdict : List String → List String → RedClassificationResult
unfolding without
final_verdict failed unexpected =
    if not (is_empty unexpected)
    then record (verdict unexpected_red "unexpected_test_failure") {
      failed_case_ids = failed ++ without unexpected failed;
      unexpected_case_ids = unexpected;
    }
    else if is_empty failed
    then verdict unexpected_red "expected_red_missing"
    else record (verdict expected_red "expected_red") { failed_case_ids = failed }

-- The part after the baseline has passed.
unfoldable pub classify_expected :
    FrozenTestContract → List CaseResult → Evidence → Result RedClassificationResult
unfolding expected_outcomes final_verdict uncontracted_failures
classify_expected contract rs evidence = do
  (red, unexpected) ← expected_outcomes evidence contract.expected_failure_case_ids
  ok (final_verdict red (uncontracted_failures contract.cases rs ++ unexpected))

unfoldable pub classify_baseline :
    FrozenTestContract → List CaseResult → Evidence → List String → Result RedClassificationResult
unfolding classify_expected
classify_baseline contract rs evidence failed =
    if not (is_empty failed)
    then ok (record (verdict baseline_regression "baseline_test_failed") {
      failed_case_ids = failed;
      baseline_failed_case_ids = failed;
    })
    else classify_expected contract rs evidence

-- The part after every contracted case is known to have evidence.
unfoldable pub classify_outcomes :
    FrozenTestContract → List CaseResult → Evidence → Result RedClassificationResult
unfolding not_passed classify_baseline contracted_among without
classify_outcomes contract rs evidence = do
  failed ←
      not_passed evidence (without (contracted_ids contract) contract.expected_failure_case_ids)
  classify_baseline contract rs evidence failed

unfoldable pub classify_cases :
    FrozenTestContract → List CaseResult → Result RedClassificationResult
unfolding classify_outcomes missing_ids evidence_by_case_id contracted_among
classify_cases contract rs =
    if is_empty rs
    then ok (verdict invalid_test "case_evidence_missing")
    else let missing =
        missing_ids (evidence_by_case_id contract.cases rs) (contracted_ids contract) in
      if not (is_empty missing)
      then ok (record (verdict invalid_test "contract_case_not_collected") {
        unexpected_case_ids = missing;
      })
      else classify_outcomes contract rs (evidence_by_case_id contract.cases rs)

unfoldable pub classify_commands : FrozenTestContract → Manifest → Result RedClassificationResult
unfolding classify_cases without observed_command_ids all_collection_errors all_case_results
classify_commands contract manifest =
    let missing = without contract.command_ids (observed_command_ids manifest.results) in
    if not (is_empty missing)
    then ok (record (verdict invalid_test "required_command_evidence_missing") {
      unexpected_case_ids = missing;
    })
    else if not (is_empty (all_collection_errors manifest.results))
    then ok (record (verdict invalid_test "pytest_collection_failed") {
      collection_errors = all_collection_errors manifest.results;
    })
    else classify_cases contract (all_case_results manifest.results)

unfoldable pub classify_red_verification :
    FrozenTestContract → Manifest → Result RedClassificationResult
unfolding classify_commands is_infrastructure_error any_timed_out
classify_red_verification contract manifest =
    if any_timed_out manifest.results || is_infrastructure_error manifest.error_code
    then ok (
        verdict infra_error
          (if manifest.error_code == "" then "container_wait_timeout" else manifest.error_code))
    else classify_commands contract manifest

-- `event_for_red_classification`
unfoldable pub event_for_red_classification : RedClassificationResult → ModificationEvent
event_for_red_classification r = elim r.classification [
  | expected_red ↦ ModificationEvent.red_confirmed
  | unexpected_red ↦ ModificationEvent.invalid_test
  | invalid_test ↦ ModificationEvent.invalid_test
  | infra_error ↦ ModificationEvent.infrastructure_failed
  | baseline_regression ↦ ModificationEvent.baseline_expired
]
