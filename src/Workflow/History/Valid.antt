-- ===== src/Workflow/History/Valid.antt =====
-- The invariants of the store along a sequence of calls of features/project_map/store.py.
use bridle.Workflow.Transition.Cases.{Outcome, reused, advanced, transition-Outcome}
use bridle.Errors.{ok}
use bridle.Workflow.Audit.Evidence.{ready-back_to, HasEvidence}
use bridle.Workflow.Machine.Paths.{is_past_final}
use bridle.Prelude.Json.{Fields}
use bridle.Workflow.Contracts.Bound.{apply-IsContracted}
use bridle.Workflow.Runs.Kept.{
  IsQueue, enqueue-IsQueue, claim-IsQueue, renew-IsQueue, complete-IsQueue,
}
use bridle.Workflow.Machine.{ModificationEvent, allowed, target}
use bridle.Workflow.Contracts.Frozen.{IsSingleFrozen, freeze-IsSafeStep, invalidate-IsSafeStep}
use bridle.Workflow.Audit.Preserved.{apply-IsAudited}
use bridle.Workflow.Defer.Invariants.{IsValid, defer-IsValid}
use bridle.Workflow.History.Frames.{
  OnlyContracts, OnlyRuns, freeze-OnlyContracts, invalidate-OnlyContracts, enqueue-OnlyRuns,
  claim-OnlyRuns, renew-OnlyRuns, complete-OnlyRuns,
}
use bridle.Workflow.Transition.{apply, Transition, commit_transition}
use bridle.Workflow.Store.{get_modification_workflow, Store, empty, Workflow}
use bridle.Prelude.{some, true, Option, refl, String, select_one, rowcount, arith, ℕ, ◌≡◌}
use bridle.Workflow.History.{
  Step, Reach, here, next, transition, freeze, invalidate, enqueue, claim, renew, complete, defer,
}

runs-IsValid : (s s' : Store) → OnlyRuns s s' → IsQueue s'.runs → IsValid s → IsValid s'
unfolding get_modification_workflow
runs-IsValid s s' o q v = record {
  queue = q;
  audited = record {
    trail = rw o.events v.audited.trail;
    agrees = λ n. rw (o.workflows, o.events) (v.audited.agrees n);
  };
  contracted = record {
    bound = λ n w h. v.contracted.bound n w (rw o.workflows at h);
    single = rw o.contracts v.contracted.single;
  };
}

contracts-IsValid :
    (s s' : Store) → OnlyContracts s s' → IsSingleFrozen s'.contracts → IsValid s → IsValid s'
unfolding get_modification_workflow
contracts-IsValid s s' o f v = record {
  queue = rw o.runs v.queue;
  audited = record {
    trail = rw o.events v.audited.trail;
    agrees = λ n. rw (o.workflows, o.events) (v.audited.agrees n);
  };
  contracted = record { bound = λ n w h. v.contracted.bound n w (rw o.workflows at h); single = f };
}

pub runs-apply :
    (node_id : String) (event : ModificationEvent) (event_id : String)
    (expected_revision : Option ℕ) (payload : Fields) (s : Store) (r : Store × Transition)
    → apply node_id event event_id expected_revision payload s ≡ ok r
    → r.0.runs ≡ s.runs
unfolding apply
runs-apply node_id event event_id expected_revision payload s r h = same (
    transition-Outcome node_id event event_id (allowed event) (target event) expected_revision
      payload s r h)
  where
    same :
        Outcome node_id event event_id (allowed event) (target event) expected_revision payload s r
        → r.0.runs ≡ s.runs
    same (reused e old m q) = rw q
    same (advanced new d) = rw d.committed (unfold commit_transition in refl)

pub Step-IsValid : {s s' : Store} → Step s s' → IsValid s → IsValid s'
Step-IsValid (transition node_id event event_id expected_revision payload s r h) v = record {
  queue = rw (runs-apply node_id event event_id expected_revision payload s r h) v.queue;
  audited = apply-IsAudited node_id event event_id expected_revision payload s r h v.audited;
  contracted =
      (apply-IsContracted node_id event event_id expected_revision payload s r h v.contracted).0;
}
Step-IsValid (freeze version_in content_hash node_id version snapshot s r h) v =
    contracts-IsValid s r.0
      (freeze-OnlyContracts version_in content_hash node_id version snapshot s r h)
      (freeze-IsSafeStep node_id version snapshot version_in content_hash s r h
        v.contracted.single).single
      v
Step-IsValid (invalidate node_id version reason s r h) v =
    contracts-IsValid s r.0 (invalidate-OnlyContracts node_id version reason s r h)
      (invalidate-IsSafeStep node_id version reason s r h v.contracted.single).single v
Step-IsValid (enqueue q s r h) v =
    runs-IsValid s r.0 (enqueue-OnlyRuns q s r h) (enqueue-IsQueue q s r h v.queue) v
Step-IsValid (claim run_id token now n s r h) v =
    runs-IsValid s r.0 (claim-OnlyRuns run_id token now n s r h)
      (claim-IsQueue run_id token now n s r h v.queue) v
Step-IsValid (renew run_id token now n s r h) v =
    runs-IsValid s r.0 (renew-OnlyRuns run_id token now n s r h)
      (renew-IsQueue run_id token now n s r h v.queue) v
Step-IsValid (complete run_id token outcome e s r h) v =
    runs-IsValid s r.0 (complete-OnlyRuns run_id token outcome e s r h)
      (complete-IsQueue run_id token outcome e s r h v.queue) v
Step-IsValid (defer run_id token error now max_attempts s r h) v =
    defer-IsValid run_id token error now max_attempts s r h v

pub empty-IsValid : IsValid empty
unfolding get_modification_workflow select_one rowcount
empty-IsValid = record {
  queue = record { keyed = λ id. omega arith; sound = tt };
  audited = record { trail = tt; agrees = λ n. refl };
  contracted = record { bound = λ n w h. absurd (ground arith); single = λ n. omega arith };
}

-- From a valid store every sequence of calls leads to a valid store: the runs are sound, the trail
-- is a run of the state machine that ends in the rows of the workflows, a workflow is bound to no
-- contract version exactly while its tests are authored, and at most one contract of a node is
-- frozen.
pub Reach-IsValid : {s s' : Store} → Reach s s' → IsValid s → IsValid s'
Reach-IsValid here v = v
Reach-IsValid (next r st) v = Step-IsValid st (Reach-IsValid r v)

-- Whatever calls were made on an empty store, a node that is ready to publish or published has a
-- passed final verification in its trail since its tests were last authored, and before that, with
-- no authoring of the tests in between, a confirmed red run.
pub Reach-evidence :
    (s : Store)
    → Reach empty s
    → (node_id : String) (w : Workflow) → get_modification_workflow node_id s ≡ some w
    → is_past_final w.state ≡ true
    → HasEvidence node_id s.events
Reach-evidence s r node_id w = ready-back_to s node_id w (Reach-IsValid r empty-IsValid).audited
