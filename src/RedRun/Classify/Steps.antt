-- ===== src/RedRun/Classify/Steps.antt =====
-- The tests of agent/container/red_classification.py one by one.
use bridle.RedRun.Evidence.{
  all_collection_errors, uncontracted_failures, any_timed_out, without, TestCase, CommandResult,
  CaseResult, case_id_by_node, is_harmless,
}
use bridle.RedRun.Classify.{
  missing_ids, expected_outcomes, not_passed, Evidence, evidence_at, is_red,
}
use bridle.Errors.{ok, >>=-eq-ok, ok-injective}
use bridle.Prelude.{
  ◌∙◌, List, [], ◌∷◌, ◌++◌, none, some, true, false, inl, inr, refl, String, ◌≡◌, All, arith, ◌⊎◌,
  ◌≢◌, contains, Bool-cases, string_eq, ap, Option-cases, sym, ◌==◌, eq-of-==, eq_self,
}

abbrev pub HasPassed : Evidence → String → Type 0
HasPassed evidence id = (r : CaseResult) × (evidence id ≡ some r) × (r.outcome ≡ "passed")

abbrev pub HasRed : Evidence → String → Type 0
HasRed evidence id =
    (r : CaseResult) × (evidence id ≡ some r)
    × (r.outcome ≡ "failed")
    × (r.failure_type ≡ "AssertionError")

pub in_time_lem :
    (cs : List CommandResult) → any_timed_out cs ≡ false → All (λ c. c.is_timed_out ≡ false) cs
unfolding any_timed_out
in_time_lem [] h = tt
in_time_lem (c ∷ cs) h = (ground arith, in_time_lem cs (ground arith))

pub without-contains :
    (xs ys : List String) → without xs ys ≡ [] → All (λ x. contains ys x ≡ true) xs
unfolding without
without-contains [] ys h = tt
without-contains (x ∷ xs) ys h = elim (Bool-cases (contains ys x)) [
  | inl e ↦ (e, without-contains xs ys (rw e at h))
  | inr e ↦ absurd (ground arith)
]

pub append-nil : {A : Type 0} (xs ys : List A) → xs ++ ys ≡ [] → (xs ≡ []) × (ys ≡ [])
append-nil [] ys h = (refl, h)
append-nil (x ∷ xs) ys h = absurd (ground arith)

pub collected_lem :
    (cs : List CommandResult)
    → all_collection_errors cs ≡ []
    → All (λ c. c.collection_errors ≡ []) cs
unfolding all_collection_errors
collected_lem [] h = tt
collected_lem (c ∷ cs) h =
    let (own, rest) = append-nil c.collection_errors (all_collection_errors cs) h in
    (own, collected_lem cs rest)

pub missing_lem :
    (evidence : Evidence) (ids : List String)
    → missing_ids evidence ids ≡ []
    → All (λ id. evidence id ≢ none) ids
unfolding missing_ids
missing_lem evidence [] h = tt
missing_lem evidence (id ∷ ids) h = elim (Option-cases (evidence id)) [
  | inl e ↦ absurd (ground arith)
  | inr (r, e) ↦ (λ q. ground arith, missing_lem evidence ids (rw e at h))
]

passed_step :
    (evidence : Evidence) (id : String) (ids : List String)
    → not_passed evidence (id ∷ ids) ≡ ok []
    → HasPassed evidence id × (not_passed evidence ids ≡ ok [])
unfolding not_passed evidence_at
passed_step evidence id ids h = elim (Option-cases (evidence id)) [
  | inl e ↦ absurd (ground arith)
  | inr (r, e) ↦
      let (rest, h', q) = >>=-eq-ok (not_passed evidence ids) _ (rw (e, evidence_at) at h) in
      elim (Bool-cases (r.outcome == "passed")) [
        | inl good ↦
            let same : rest ≡ [] = ok-injective rest [] (rw good at q) in
            ((r, e, eq-of-== r.outcome "passed" good), h' ∙ ap ok same)
        | inr bad ↦ absurd (ground arith)
      ]
]

pub not_passed_lem :
    (evidence : Evidence) (ids ys : List String)
    → not_passed evidence (without ids ys) ≡ ok []
    → All (λ id. (contains ys id ≡ true) ⊎ HasPassed evidence id) ids
unfolding without
not_passed_lem evidence [] ys h = tt
not_passed_lem evidence (id ∷ ids) ys h = elim (Bool-cases (contains ys id)) [
  | inl e ↦ (inl e, not_passed_lem evidence ids ys (rw e at h))
  | inr e ↦
      let (own, rest) = passed_step evidence id (without ids ys) (rw e at h) in
      (inr own, not_passed_lem evidence ids ys rest)
]

pub others_lem :
    (cases : List TestCase) (rs : List CaseResult)
    → uncontracted_failures cases rs ≡ []
    → All (λ r. (case_id_by_node cases r.node_id ≢ none) ⊎ (is_harmless r ≡ true)) rs
unfolding uncontracted_failures
others_lem cases [] h = tt
others_lem cases (r ∷ rs) h = elim (Option-cases (case_id_by_node cases r.node_id)) [
  | inr (id, e) ↦ (inl (λ q. ground arith), others_lem cases rs (rw e at h))
  | inl e ↦ elim (Bool-cases (is_harmless r)) [
    | inl good ↦ (inr good, others_lem cases rs (rw (e, good) at h))
    | inr bad ↦ absurd (ground arith)
  ]
]

-- One of the cases failed by an assertion.
abbrev pub SomeRed : Evidence → List String → Type 0
SomeRed evidence ids = (id : String) × (contains ids id ≡ true) × HasRed evidence id

-- How a case that does not stop the confirmation was taken.
abbrev Taken : CaseResult → String → List String → List String → Type 0
Taken r id red red' =
    ((is_red r ≡ true) × (red' ≡ id ∷ red)) ⊎ ((r.outcome ≡ "passed") × (red' ≡ red))

expected_step :
    (evidence : Evidence) (id : String) (ids : List String) (p : List String × List String)
    → expected_outcomes evidence (id ∷ ids) ≡ ok p
    → p.1 ≡ []
    → (r : CaseResult) × (q : List String × List String) × (evidence id ≡ some r)
      × (expected_outcomes evidence ids ≡ ok q)
      × (q.1 ≡ [])
      × Taken r id q.0 p.0
unfolding expected_outcomes evidence_at
expected_step evidence id ids p h e = elim (Option-cases (evidence id)) [
  | inl missing ↦ absurd (ground arith)
  | inr (r, found) ↦
      let (q, h', k) =
        >>=-eq-ok (expected_outcomes evidence ids) _ (rw (found, evidence_at) at h) in
      elim (Bool-cases (is_red r)) [
        | inl fails ↦
            let same : (id ∷ q.0, q.1) ≡ p = ok-injective (id ∷ q.0, q.1) p (rw fails at k) in
            (r, q, found, h', ap (λ x. x.1) same ∙ e, inl (fails, ap (λ x. x.0) (sym same)))
        | inr other ↦ elim (Bool-cases (r.outcome == "passed")) [
          | inl good ↦
              let same : q ≡ p = ok-injective q p (rw (other, good) at k) in
              (
                r,
                q,
                found,
                h',
                ap (λ x. x.1) same ∙ e,
                inr (eq-of-== r.outcome "passed" good, ap (λ x. x.0) (sym same)),
              )
          | inr bad ↦
              let same : (q.0, id ∷ q.1) ≡ p =
                ok-injective (q.0, id ∷ q.1) p (rw (other, bad) at k) in
              absurd (ground arith)
        ]
      ]
]

is_red-HasRed :
    (evidence : Evidence) (id : String) (r : CaseResult)
    → evidence id ≡ some r
    → is_red r ≡ true
    → HasRed evidence id
is_red-HasRed evidence id r found h = (r, found, ground arith, ground arith)

pub expected_lem :
    (evidence : Evidence) (ids : List String) (p : List String × List String)
    → expected_outcomes evidence ids ≡ ok p
    → p.1 ≡ []
    → All (λ id. HasPassed evidence id ⊎ HasRed evidence id) ids
      × ((p.0 ≡ []) ⊎ SomeRed evidence ids)
unfolding expected_outcomes
expected_lem evidence [] p h e = (tt, inl (ap (λ x. x.0) (sym (ok-injective ([], []) p h))))
expected_lem evidence (id ∷ ids) p h e =
    let (r, q, found, h', e', how) = expected_step evidence id ids p h e in
    let (all, some_red) = expected_lem evidence ids q h' e' in
    elim how [
      | inl (fails, _) ↦
          let red = is_red-HasRed evidence id r found fails in
          ((inr red, all), inr (id, rw (eq_self {A = String} id) refl, red))
      | inr (good, same) ↦ (
        (inl (r, found, good), all),
        elim some_red [
          | inl nothing_red ↦ inl (same ∙ nothing_red)
          | inr (x, inside, red) ↦ inr (x, ground arith, red)
        ],
      )
    ]
