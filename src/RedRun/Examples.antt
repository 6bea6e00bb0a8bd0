-- ===== src/RedRun/Examples.antt =====
-- A small red run for agent/container/red_classification.py.
use bridle.RedRun.Classify.Complete.{IsExpectedRed-confirmed}
use bridle.Workflow.Machine.{ModificationEvent}
use bridle.RedRun.Classify.Total.{classify_red_verification-returns}
use bridle.RedRun.Classify.Confirmed.{IsExpectedRed, event_for-IsExpectedRed}
use bridle.RedRun.Evidence.{FrozenTestContract, Manifest, case_id_by_node, contracted_among}
use bridle.RedRun.Classify.{
  expected_red, verdict, classify_red_verification, RedClassificationResult,
  event_for_red_classification,
}
use bridle.Errors.{ok}
use bridle.Prelude.{[], ◌∷◌, false, refl, string_eq, option_eq, ◌≡◌}

abbrev contract : FrozenTestContract
contract = record {
  command_ids = "c" ∷ [];
  cases =
      record { case_id = "a"; node_id = "t.py::a" }
      ∷ record { case_id = "b"; node_id = "t.py::b" }
      ∷ [];
  expected_failure_case_ids = "a" ∷ [];
}

abbrev manifest : Manifest
manifest = record {
  error_code = "";
  results =
      record {
        command_id = "c";
        is_timed_out = false;
        collection_errors = [];
        case_results =
            record { node_id = "t.py::a"; outcome = "failed"; failure_type = "AssertionError" }
            ∷ record { node_id = "t.py::b"; outcome = "passed"; failure_type = "" }
            ∷ [];
      }
      ∷ [];
}

abbrev red_verdict : RedClassificationResult
red_verdict = record (verdict expected_red "expected_red") { failed_case_ids = "a" ∷ [] }

as_expected : IsExpectedRed contract manifest
unfolding classify_red_verification string_eq option_eq event_for_red_classification case_id_by_node
    contracted_among
as_expected = event_for-IsExpectedRed contract manifest red_verdict refl refl

event_for-IsExpectedRed_example : IsExpectedRed contract manifest
unfolding classify_red_verification string_eq option_eq event_for_red_classification case_id_by_node
    contracted_among
event_for-IsExpectedRed_example = event_for-IsExpectedRed contract manifest red_verdict refl refl

classify_red_verification-returns_example :
    (r : RedClassificationResult) × (classify_red_verification contract manifest ≡ ok r)
unfolding classify_red_verification string_eq option_eq event_for_red_classification case_id_by_node
    contracted_among
classify_red_verification-returns_example =
    classify_red_verification-returns contract manifest (refl, tt)

IsExpectedRed-confirmed_example :
    (r : RedClassificationResult) × (classify_red_verification contract manifest ≡ ok r)
    × (event_for_red_classification r ≡ ModificationEvent.red_confirmed)
IsExpectedRed-confirmed_example = IsExpectedRed-confirmed contract manifest as_expected
