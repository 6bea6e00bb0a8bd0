-- ===== src/RedRun/Classify/Total.antt =====
-- The look-ups of evidence in agent/container/red_classification.py, which raise a `KeyError` on a
-- case without any.
use bridle.RedRun.Classify.Steps.{missing_lem}
use bridle.RedRun.Evidence.{
  without, FrozenTestContract, CaseResult, Manifest, contracted_ids, evidence_by_case_id,
  observed_command_ids, uncontracted_failures, any_timed_out, all_collection_errors,
  all_case_results,
}
use mathlib.Core.Path.{subst}
use bridle.RedRun.Classify.{
  invalid_test, infra_error, verdict, classify_baseline, not_passed, expected_outcomes,
  classify_red_verification, classify_outcomes, classify_cases, classify_commands,
  classify_expected, evidence_at, Evidence, is_empty, final_verdict, RedClassificationResult,
  is_red, is_infrastructure_error,
}
use bridle.Errors.{ok, Result}
use bridle.Prelude.{
  List, [], ◌∷◌, ◌++◌, none, true, false, inl, inr, refl, Bool, String, All, contains, ◌≡◌,
  Bool-cases, arith, string_eq, ◌==◌, ◌≢◌, Option-cases, sym, eq-of-==, if◌then◌else◌, ◌||◌, not,
}

abbrev Returns : {A : Type 0} → Result A → Type 0
Returns {A} m = (a : A) × (m ≡ ok a)

-- An early answer, or what follows it.
if-Returns :
    {A : Type 0} (b : Bool) (a : A) (m : Result A)
    → (b ≡ false → Returns m)
    → Returns (if b then ok a else m)
if-Returns true a m k = (a, refl)
if-Returns false a m k = k refl

pub All-contains :
    (P : String → Type 0) (xs : List String) (x : String) → All P xs → contains xs x ≡ true → P x
All-contains P [] x all h = absurd (ground arith)
All-contains P (y ∷ xs) x all h = elim (Bool-cases (x == y)) [
  | inl e ↦ subst P (sym (eq-of-== x y e)) all.0
  | inr e ↦ All-contains P xs x all.1 (rw e at h)
]

All-map_contains :
    (P : String → Type 0) (xs ys : List String)
    → All P xs
    → All (λ y. contains xs y ≡ true) ys
    → All P ys
All-map_contains P xs [] all h = tt
All-map_contains P xs (y ∷ ys) all h =
    (All-contains P xs y all h.0, All-map_contains P xs ys all h.1)

without-All : (P : String → Type 0) (xs ys : List String) → All P xs → All P (without xs ys)
unfolding without
without-All P [] ys all = tt
without-All P (x ∷ xs) ys all = elim (Bool-cases (contains ys x)) [
  | inl e ↦ rw e (without-All P xs ys all.1)
  | inr e ↦ rw e (all.0, without-All P xs ys all.1)
]

not_passed-Returns :
    (evidence : Evidence) (ids : List String)
    → All (λ id. evidence id ≢ none) ids
    → Returns (not_passed evidence ids)
unfolding not_passed evidence_at
not_passed-Returns evidence [] all = ([], refl)
not_passed-Returns evidence (id ∷ ids) all = elim (Option-cases (evidence id)) [
  | inl e ↦ absurd (all.0 e)
  | inr (r, e) ↦
      let (rest, q) = not_passed-Returns evidence ids all.1 in
      (if r.outcome == "passed" then rest else id ∷ rest, rw (e, evidence_at) (rw q refl))
]

expected_outcomes-Returns :
    (evidence : Evidence) (ids : List String)
    → All (λ id. evidence id ≢ none) ids
    → Returns (expected_outcomes evidence ids)
unfolding expected_outcomes evidence_at
expected_outcomes-Returns evidence [] all = (([], []), refl)
expected_outcomes-Returns evidence (id ∷ ids) all = elim (Option-cases (evidence id)) [
  | inl e ↦ absurd (all.0 e)
  | inr (r, e) ↦
      let (rest, q) = expected_outcomes-Returns evidence ids all.1 in
      (
        if is_red r
            then (id ∷ rest.0, rest.1)
            else if r.outcome == "passed"
            then (rest.0, rest.1)
            else (rest.0, id ∷ rest.1),
        rw (e, evidence_at) (rw q refl),
      )
]

baseline-Returns :
    (contract : FrozenTestContract) (rs : List CaseResult) (evidence : Evidence)
    (failed : List String)
    → All (λ id. evidence id ≢ none) contract.expected_failure_case_ids
    → Returns (classify_baseline contract rs evidence failed)
unfolding classify_baseline classify_expected
baseline-Returns contract rs evidence [] all =
    let (p, q) = expected_outcomes-Returns evidence contract.expected_failure_case_ids all in
    (final_verdict p.0 (uncontracted_failures contract.cases rs ++ p.1), rw q refl)
baseline-Returns contract rs evidence (x ∷ failed) all = (_, refl)

outcomes-Returns :
    (contract : FrozenTestContract) (rs : List CaseResult) (evidence : Evidence)
    → All (λ id. evidence id ≢ none) (contracted_ids contract)
    → All (λ id. contains (contracted_ids contract) id ≡ true) contract.expected_failure_case_ids
    → Returns (classify_outcomes contract rs evidence)
unfolding classify_outcomes
outcomes-Returns contract rs evidence covered known =
    let (failed, q) =
      not_passed-Returns evidence
        (without (contracted_ids contract) contract.expected_failure_case_ids)
        (without-All (λ id. evidence id ≢ none) (contracted_ids contract)
          contract.expected_failure_case_ids covered) in
    let (r, k) = baseline-Returns contract rs evidence failed (
      All-map_contains (λ id. evidence id ≢ none) (contracted_ids contract)
        contract.expected_failure_case_ids covered known) in
    (r, rw q k)

cases-Returns :
    (contract : FrozenTestContract) (rs : List CaseResult)
    → All (λ id. contains (contracted_ids contract) id ≡ true) contract.expected_failure_case_ids
    → Returns (classify_cases contract rs)
unfolding classify_cases
cases-Returns contract [] known = (_, refl)
cases-Returns contract (r ∷ rs) known = if-Returns _ _ _ (λ e.
    outcomes-Returns contract (r ∷ rs) (evidence_by_case_id contract.cases (r ∷ rs))
      (missing_lem (evidence_by_case_id contract.cases (r ∷ rs)) (contracted_ids contract)
        (ground arith))
      known)

commands-Returns :
    (contract : FrozenTestContract) (manifest : Manifest)
    → All (λ id. contains (contracted_ids contract) id ≡ true) contract.expected_failure_case_ids
    → Returns (classify_commands contract manifest)
unfolding classify_commands
commands-Returns contract manifest known =
    if-Returns
      (not (is_empty (without contract.command_ids (observed_command_ids manifest.results))))
      (record (verdict invalid_test "required_command_evidence_missing") {
        unexpected_case_ids = without contract.command_ids (observed_command_ids manifest.results);
      })
      _
      (λ _.
        if-Returns (not (is_empty (all_collection_errors manifest.results)))
          (record (verdict invalid_test "pytest_collection_failed") {
            collection_errors = all_collection_errors manifest.results;
          })
          _ (λ _. cases-Returns contract (all_case_results manifest.results) known))

-- A contract whose expected failures are cases of its node table is classified on every manifest:
-- there is a verdict, and no look-up of evidence raises a `KeyError`.
pub classify_red_verification-returns :
    (contract : FrozenTestContract) (manifest : Manifest)
    → All (λ id. contains (contracted_ids contract) id ≡ true) contract.expected_failure_case_ids
    → (r : RedClassificationResult) × (classify_red_verification contract manifest ≡ ok r)
unfolding classify_red_verification
classify_red_verification-returns contract manifest known =
    if-Returns (any_timed_out manifest.results || is_infrastructure_error manifest.error_code)
      (verdict infra_error
        (if manifest.error_code == "" then "container_wait_timeout" else manifest.error_code))
      _ (λ _. commands-Returns contract manifest known)
