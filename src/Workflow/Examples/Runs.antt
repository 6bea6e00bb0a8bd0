-- ===== src/Workflow/Examples/Runs.antt =====
-- Runs of the queue of verifications of features/project_map/store.py on small inputs.
use bridle.Workflow.Runs.Claim.{claim-exclusive}
use bridle.Workflow.Runs.Retry.{is_reached, is_deferred, next_verification_retry_at-exact}
use bridle.Workflow.History.Final.{Reach-KeepsFinal}
use mathlib.Core.Bool.{true≢false}
use bridle.Workflow.Runs.Lease.{stale_token_refused}
use bridle.Workflow.Defer.Outcome.{defer-queued, defer-exhausted}
use bridle.Prelude.Json.{str}
use bridle.Errors.{raise, ok, conflict_error}
use bridle.Workflow.Contracts.{freeze_test_contract}
use bridle.Workflow.History.Valid.{Reach-IsValid, empty-IsValid}
use bridle.Workflow.Defer.{defer_verification_run, verifying_state, exhausted_event}
use bridle.Workflow.Examples.{walk, node, walk-Reach, contracted, contracted-Reach, here}
use bridle.Workflow.Transition.{apply}
use bridle.Workflow.Defer.Invariants.{IsValid}
use bridle.Workflow.History.{Reach, enqueue, claim, next}
use bridle.Workflow.Machine.{
  ModificationEvent, state_eq, ModificationState, event_eq, allowed, target,
}
use bridle.Workflow.Runs.{
  get_verification_run, RunRequest, queued_run, claimed_run, second, complete_verification_run,
  renew_verification_lease, enqueue_verification_run, claim_verification_run, is_owned_at,
  next_verification_retry_at, is_unclaimable,
}
use bridle.Prelude.{
  List, [], ◌∷◌, none, some, refl, String, select_one, ◌*◌, string_eq, option_eq, ◌≡◌, nat_eq, ◌+◌,
  arith, rowcount, update_where, ap, ◌==◌, ltb, if◌then◌else◌, false, ◌↔◌, All, true,
}
use bridle.Workflow.Store.{
  red, RunRow, Store, empty, get_modification_workflow, Workflow, queued, failed, contract_state_eq,
  phase_eq, run_state_eq,
}

abbrev verifying_events : List (ModificationEvent × String)
verifying_events =
    (ModificationEvent.start, "1")
    ∷ (ModificationEvent.test_contract_approved, "2")
    ∷ (ModificationEvent.red_allowed, "3")
    ∷ (ModificationEvent.red_verification_started, "4")
    ∷ []

abbrev verifying : Store
verifying = walk verifying_events contracted

abbrev request : RunRequest
request = record {
  run_id = "run";
  node_id = node;
  phase = red;
  source_revision = 4;
  contract_version = "v1";
  candidate_id = none;
  max_attempts = 1;
}

abbrev waiting : Store
waiting = record verifying { runs = queued_run request ∷ [] }

abbrev owned_run : RunRow
owned_run = claimed_run "token" (60 * second) (queued_run request)

abbrev owned : Store
owned = record verifying { runs = owned_run ∷ [] }

verifying-Reach : Reach empty verifying
verifying-Reach = walk-Reach verifying_events empty contracted contracted-Reach

owned-Reach : Reach empty owned
unfolding apply freeze_test_contract get_modification_workflow get_verification_run select_one
    string_eq option_eq nat_eq state_eq event_eq contract_state_eq phase_eq run_state_eq allowed
    target rowcount update_where enqueue_verification_run claim_verification_run
    defer_verification_run
owned-Reach =
    next (next verifying-Reach (enqueue request verifying (waiting, queued_run request) refl))
      (claim "run" "token" 0 60 waiting (owned, some owned_run) refl)

owned-IsValid : IsValid owned
owned-IsValid = Reach-IsValid owned-Reach empty-IsValid

stale_token_refused_example :
    (complete_verification_run "run" "stale" (str "passed") none owned
      ≡ raise (conflict_error "verification_lease_lost"))
    × (renew_verification_lease "run" "stale" 1 60 owned
        ≡ raise (conflict_error "verification_lease_lost"))
    × (defer_verification_run "run" "stale" "timeout" 1 none owned
        ≡ raise (conflict_error "verification_lease_lost"))
unfolding get_verification_run select_one string_eq option_eq
stale_token_refused_example =
    stale_token_refused "run" owned owned_run owned-IsValid.queue refl "stale"
      (λ e. true≢false (ap (λ o. o == some "token") e)) (str "passed") none "timeout" 1 60 none
      (ground arith) (omega arith) (omega arith) (omega arith)

abbrev dropped : Store × RunRow
dropped = elim (defer_verification_run "run" "token" "timeout" 1 none owned) [
  | raise e ↦ (owned, owned_run)
  | ok r ↦ r
]

dropped_lem : defer_verification_run "run" "token" "timeout" 1 none owned ≡ ok dropped
unfolding apply freeze_test_contract get_modification_workflow get_verification_run select_one
    string_eq option_eq nat_eq state_eq event_eq contract_state_eq phase_eq run_state_eq allowed
    target rowcount update_where enqueue_verification_run claim_verification_run
    defer_verification_run
dropped_lem = refl

defer-exhausted_example :
    (w : Workflow) × (get_modification_workflow node owned ≡ some w)
    × (w.state ≡ verifying_state red)
    × (get_verification_run "run" dropped.0 ≡ some dropped.1)
    × (dropped.1.state ≡ failed)
    × (dropped.1.attempt ≡ 1)
    × (dropped.1.lease_token ≡ none)
    × (dropped.1.next_retry_at ≡ none)
    × (dropped.1.terminal_reason ≡ some "verification_retry_exhausted")
    × (get_modification_workflow node dropped.0
        ≡ some (record w {
          state = ModificationState.verification_blocked;
          revision = w.revision + 1;
        }))
    × (dropped.0.events ≡ exhausted_event owned_run "timeout" w ∷ owned.events)
unfolding get_verification_run select_one string_eq
defer-exhausted_example =
    defer-exhausted "run" "token" "timeout" 1 none owned dropped dropped_lem owned-IsValid.queue
      owned_run refl (omega arith)

-- The lease ran out, and another worker has claimed the run: its second attempt.
abbrev owned_again_run : RunRow
owned_again_run = claimed_run "token2" (121 * second) owned_run

abbrev owned_again : Store
owned_again = record verifying { runs = owned_again_run ∷ [] }

owned_again-IsValid : IsValid owned_again
unfolding apply freeze_test_contract get_modification_workflow get_verification_run select_one
    string_eq option_eq nat_eq state_eq event_eq contract_state_eq phase_eq run_state_eq allowed
    target rowcount update_where enqueue_verification_run claim_verification_run
    defer_verification_run
owned_again-IsValid =
    Reach-IsValid
      (next owned-Reach
        (claim "run" "token2" (61 * second) 60 owned (owned_again, some owned_again_run) refl))
      empty-IsValid

abbrev delayed : Store × RunRow
delayed = elim (defer_verification_run "run" "token2" "timeout" 1 (some 3) owned_again) [
  | raise e ↦ (owned_again, owned_again_run)
  | ok r ↦ r
]

delayed_lem : defer_verification_run "run" "token2" "timeout" 1 (some 3) owned_again ≡ ok delayed
unfolding apply freeze_test_contract get_modification_workflow get_verification_run select_one
    string_eq option_eq nat_eq state_eq event_eq contract_state_eq phase_eq run_state_eq allowed
    target rowcount update_where enqueue_verification_run claim_verification_run
    defer_verification_run
delayed_lem = refl

defer-queued_example :
    (delayed.1.state ≡ queued)
    × (delayed.1.next_retry_at ≡ some 2000001)
    × (delayed.1.lease_token ≡ none)
    × (delayed.1.attempt ≡ 2)
    × (get_verification_run "run" delayed.0 ≡ some delayed.1)
    × (delayed.0.workflows ≡ owned_again.workflows)
    × (delayed.0.events ≡ owned_again.events)
unfolding get_verification_run select_one string_eq
defer-queued_example =
    defer-queued "run" "token2" "timeout" 1 (some 3) owned_again delayed delayed_lem
      owned_again-IsValid.queue owned_again_run refl (omega arith)

Reach-KeepsFinal_example : get_verification_run "run" dropped.0 ≡ some dropped.1
unfolding apply freeze_test_contract get_modification_workflow get_verification_run select_one
    string_eq option_eq nat_eq state_eq event_eq contract_state_eq phase_eq run_state_eq allowed
    target rowcount update_where enqueue_verification_run claim_verification_run
    defer_verification_run
Reach-KeepsFinal_example =
    Reach-KeepsFinal "run" dropped.1
      (next here (claim "run" "late" 9 60 dropped.0 (dropped.0, none) refl)) refl refl

claim-exclusive_example :
    (s' : Store) × (s'' : Store) × (first : RunRow) × (second_claim : RunRow)
    × (claim_verification_run "run" "token" 0 60 waiting ≡ ok (s', some first))
    × (first.attempt ≡ 1)
    × (is_owned_at "run" "token" 7 first ≡ ltb 7 (60 * second))
    × (claim_verification_run "run" "other" 7 60 s'
        ≡ (if ltb 7 (60 * second) then ok (s', none) else ok (s'', some second_claim)))
    × (second_claim.attempt ≡ 2)
unfolding apply freeze_test_contract get_modification_workflow get_verification_run select_one
    string_eq option_eq nat_eq state_eq event_eq contract_state_eq phase_eq run_state_eq allowed
    target rowcount update_where enqueue_verification_run claim_verification_run
    defer_verification_run
claim-exclusive_example =
    claim-exclusive "run" "token" 0 60 waiting (queued_run request) "other" 7 60 refl refl

next_verification_retry_at-exact_example :
    (is_reached 5 (next_verification_retry_at delayed.0) ≡ false)
    ↔ All (λ r. is_deferred r ≡ true → is_unclaimable 5 r ≡ true) delayed.0.runs
next_verification_retry_at-exact_example = next_verification_retry_at-exact 5 delayed.0
