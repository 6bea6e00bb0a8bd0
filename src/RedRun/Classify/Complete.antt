-- ===== src/RedRun/Classify/Complete.antt =====
-- agent/container/red_classification.py on a run that is as expected.
use bridle.Workflow.Machine.{ModificationEvent}
use bridle.RedRun.Classify.Total.{All-contains}
use bridle.RedRun.Classify.Confirmed.{IsExpectedRed}
use mathlib.Core.Bool.{true≢false}
use bridle.RedRun.Classify.Steps.{HasPassed, HasRed}
use bridle.RedRun.Evidence.{
  all_collection_errors, uncontracted_failures, without, any_timed_out, TestCase, CommandResult,
  CaseResult, case_id_by_node, is_harmless, FrozenTestContract, Manifest, all_case_results,
  evidence_by_case_id, observed_command_ids, contracted_ids,
}
use mathlib.Core.Option.{some-injective}
use bridle.RedRun.Classify.{
  expected_red, missing_ids, expected_outcomes, Evidence, evidence_at, not_passed, is_red,
  classify_expected, classify_red_verification, is_empty, final_verdict,
  event_for_red_classification, classify_commands, RedClassificationResult, classify_cases,
  classify_outcomes, classify_baseline,
}
use bridle.Errors.{ok}
use bridle.Prelude.{
  ◌∙◌, List, [], ◌∷◌, none, some, true, false, inl, inr, refl, String, All, ◌≡◌, ◌≢◌, contains,
  string_eq, arith, ◌⊎◌, Option-cases, Bool-cases, eq_self, sym, ◌==◌, ap,
}

nothing_timed_out :
    (cs : List CommandResult) → All (λ c. c.is_timed_out ≡ false) cs → any_timed_out cs ≡ false
unfolding any_timed_out
nothing_timed_out [] h = refl
nothing_timed_out (c ∷ cs) h = ground (arith, nothing_timed_out cs h.1, h.0)

nothing_without : (xs ys : List String) → All (λ x. contains ys x ≡ true) xs → without xs ys ≡ []
unfolding without
nothing_without [] ys h = refl
nothing_without (x ∷ xs) ys h = rw h.0 (nothing_without xs ys h.1)

no_errors :
    (cs : List CommandResult)
    → All (λ c. c.collection_errors ≡ []) cs
    → all_collection_errors cs ≡ []
unfolding all_collection_errors
no_errors [] h = refl
no_errors (c ∷ cs) h = rw h.0 (no_errors cs h.1)

nothing_missing :
    (evidence : Evidence) (ids : List String)
    → All (λ id. evidence id ≢ none) ids
    → missing_ids evidence ids ≡ []
unfolding missing_ids
nothing_missing evidence [] h = refl
nothing_missing evidence (id ∷ ids) h = elim (Option-cases (evidence id)) [
  | inl e ↦ absurd (h.0 e)
  | inr (r, e) ↦ rw e (nothing_missing evidence ids h.1)
]

baseline_passes :
    (evidence : Evidence) (ids ys : List String)
    → All (λ id. (contains ys id ≡ true) ⊎ HasPassed evidence id) ids
    → not_passed evidence (without ids ys) ≡ ok []
unfolding without not_passed evidence_at
baseline_passes evidence [] ys h = refl
baseline_passes evidence (id ∷ ids) ys h = elim (Bool-cases (contains ys id)) [
  | inl e ↦ rw e (baseline_passes evidence ids ys h.1)
  | inr e ↦ elim h.0 [
    | inl f ↦ absurd (ground arith)
    | inr (r, found, good) ↦ rw e (
        rw (found, evidence_at)
          (rw (baseline_passes evidence ids ys h.1)
            (rw good (rw (eq_self {A = String} "passed") refl))))
  ]
]

no_other_failures :
    (cases : List TestCase) (rs : List CaseResult)
    → All (λ r. (case_id_by_node cases r.node_id ≢ none) ⊎ (is_harmless r ≡ true)) rs
    → uncontracted_failures cases rs ≡ []
unfolding uncontracted_failures
no_other_failures cases [] h = refl
no_other_failures cases (r ∷ rs) h = elim (Option-cases (case_id_by_node cases r.node_id)) [
  | inr (id, e) ↦ rw e (no_other_failures cases rs h.1)
  | inl e ↦ elim h.0 [
    | inl f ↦ absurd (f e)
    | inr good ↦ rw (e, good) (no_other_failures cases rs h.1)
  ]
]

passed_not_failed : ◌==◌ {A = String} "passed" "failed" ≡ false
unfolding string_eq
passed_not_failed = refl

-- A case cannot both have passed and have failed.
not_both : (evidence : Evidence) (id : String) → HasPassed evidence id → ¬ HasRed evidence id
not_both evidence id (r, found, good) (q, found', fails, why) =
    let same : r ≡ q = some-injective r q (sym found ∙ found') in
    let both : "passed" ≡ "failed" = sym good ∙ ap (λ x. x.outcome) same ∙ fails in
    true≢false (
      sym (eq_self {A = String} "passed")
      ∙ ap (λ x. ◌==◌ {A = String} "passed" x) both
      ∙ passed_not_failed)

-- The loop over the expected cases leaves nothing unexpected, and has the red ones among the failed.
expected_pass :
    (evidence : Evidence) (ids : List String)
    → All (λ id. HasPassed evidence id ⊎ HasRed evidence id) ids
    → (red : List String) × (expected_outcomes evidence ids ≡ ok (red, []))
      × ((red ≡ []) → All (HasPassed evidence) ids)
unfolding expected_outcomes evidence_at
expected_pass evidence [] h = ([], refl, λ _. tt)
expected_pass evidence (id ∷ ids) h =
    let (red, q, none_red) = expected_pass evidence ids h.1 in
    elim h.0 [
      | inl (r, found, good) ↦
          let other : is_red r ≡ false = rw good (rw passed_not_failed refl) in
          (
            red,
            rw (found, evidence_at)
                (rw q (rw other (rw good (rw (eq_self {A = String} "passed") refl)))),
            λ e. ((r, found, good), none_red e),
          )
      | inr (r, found, fails, why) ↦
          let fail : is_red r ≡ true =
            rw (fails, why)
              (rw (eq_self {A = String} "failed")
                (rw (eq_self {A = String} "AssertionError") refl)) in
          (id ∷ red, rw (found, evidence_at) (rw q (rw fail refl)), λ e. absurd (ground arith))
    ]

some_evidence :
    (cases : List TestCase) (rs : List CaseResult) (id : String) (r : CaseResult)
    → evidence_by_case_id cases rs id ≡ some r
    → is_empty rs ≡ false
unfolding evidence_by_case_id
some_evidence cases [] id r h = absurd (ground arith)
some_evidence cases (x ∷ rs) id r h = refl

module _ (contract : FrozenTestContract) (manifest : Manifest)
    (h : IsExpectedRed contract manifest) where
  abbrev results : List CaseResult
  results = all_case_results manifest.results

  abbrev evidence : Evidence
  evidence = evidence_by_case_id contract.cases results

  expected_confirmed :
      (r : RedClassificationResult) × (classify_expected contract results evidence ≡ ok r)
      × (r.classification ≡ expected_red)
  unfolding classify_expected final_verdict
  expected_confirmed =
      let (red, q, none_red) =
        expected_pass evidence contract.expected_failure_case_ids h.expected in
      let (id, inside, fails) = h.some_red in
      let some_failed : red ≢ [] = λ e.
        not_both evidence id
          (All-contains (HasPassed evidence) contract.expected_failure_case_ids id (none_red e)
            inside)
          fails in
      (
        final_verdict red [],
        rw q (rw (no_other_failures contract.cases results h.no_others) refl),
        ground arith,
      )

  some_result : is_empty results ≡ false
  some_result =
      let (id, _, fails) = h.some_red in some_evidence contract.cases results id fails.0 fails.1

  -- A red run that is as expected is classified without a failed look-up, and the event of its
  -- verdict is `red_confirmed`.
  pub IsExpectedRed-confirmed :
      (r : RedClassificationResult) × (classify_red_verification contract manifest ≡ ok r)
      × (event_for_red_classification r ≡ ModificationEvent.red_confirmed)
  unfolding classify_red_verification event_for_red_classification classify_commands classify_cases
      classify_outcomes classify_baseline
  IsExpectedRed-confirmed =
      let (r, q, confirmed) = expected_confirmed in
      (
        r,
        rw (nothing_timed_out manifest.results h.in_time, h.is_code)
            (rw
              (
                nothing_without contract.command_ids (observed_command_ids manifest.results)
                    h.reported,
                no_errors manifest.results h.collected,
              )
              (rw (some_result) (
                rw (nothing_missing evidence (contracted_ids contract) h.covered) (
                  rw
                    (baseline_passes evidence (contracted_ids contract)
                      contract.expected_failure_case_ids h.baseline)
                    q)))),
        rw (confirmed, event_for_red_classification) refl,
      )
