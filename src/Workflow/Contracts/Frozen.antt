-- ===== src/Workflow/Contracts/Frozen.antt =====
-- The table of contracts of features/project_map/store.py: which contract is frozen, and its
-- history.
use bridle.Errors.{ok, require-eq-ok, ok-injective}
use bridle.Workflow.Contracts.{
  freeze_existing_or_new, freeze_test_contract, invalidate_row, invalidate_test_contract,
  reuse_contract, ContractReply, insert_contract,
}
use bridle.Workflow.Store.{
  ContractRow, is_version_of, is_frozen_for, invalidated, frozen, contract_state_eq, Store,
  get_test_contract, get_active_test_contract,
}
use bridle.Prelude.{
  List, [], ◌∷◌, none, some, Option, inl, inr, refl, String, select_one, rowcount, update_where,
  ◌&&◌, ◌≤◌, ◌≡◌, ◌++◌, ◌==◌, arith, Bool, rowcount-update_where-le, rowcount-append,
  rowcount-select_one-none, select_one-append, if◌then◌else◌, select_one-update_where, Bool-cases,
  not, string_eq, is_none,
}

abbrev pub IsSingleFrozen : List ContractRow → Type 0
IsSingleFrozen cs = (node_id : String) → rowcount (is_frozen_for node_id) cs ≤ 1

-- What happens to the contract tables of two stores: each version keeps its snapshot, and an
-- invalidated one stays as it is.
abbrev pub KeepsHistory : List ContractRow → List ContractRow → Type 0
KeepsHistory cs cs' =
    (node_id version : String) (c : ContractRow)
    → select_one (is_version_of node_id version) cs ≡ some c
    → (c' : ContractRow) × (select_one (is_version_of node_id version) cs' ≡ some c')
      × (c'.snapshot ≡ c.snapshot)
      × (c.state ≡ invalidated → c' ≡ c)

-- Both at once, from a table with at most one frozen contract for each node.
pub record IsSafeStep (cs cs' : List ContractRow) : Type 0 where
  pub single : IsSingleFrozen cs'
  pub history : KeepsHistory cs cs'

pub same_step : (cs : List ContractRow) → IsSingleFrozen cs → IsSafeStep cs cs
same_step cs f = record { single = f; history = λ n v c h. (c, h, refl, λ _. refl) }

abbrev pub is_invalidated_by : String → String → ContractRow → Bool
is_invalidated_by node_id version c = is_version_of node_id version c && c.state == frozen

abbrev pub invalidated_for : String → ContractRow → ContractRow
invalidated_for reason c = record c { state = invalidated; invalidation_reason = some reason }

pub invalidate_step :
    (node_id version reason : String) (cs : List ContractRow)
    → IsSingleFrozen cs
    → IsSafeStep cs (update_where (is_invalidated_by node_id version) (invalidated_for reason) cs)
invalidate_step node_id version reason cs f = record {
  single = λ n. omega (
    arith,
    f n,
    rowcount-update_where-le (is_frozen_for n) (is_invalidated_by node_id version)
        (invalidated_for reason) cs (λ r h. ground arith),
  );
  history = λ n v c h. (
    if is_invalidated_by node_id version c then invalidated_for reason c else c,
    rw
        (select_one-update_where (is_version_of n v) (is_invalidated_by node_id version)
          (invalidated_for reason) cs (λ r _. refl))
        (rw h),
    ground arith,
    λ d. ground arith,
  );
}

pub append_step :
    (new : ContractRow) (cs : List ContractRow)
    → IsSingleFrozen cs
    → select_one (is_frozen_for new.node_id) cs ≡ none
    → IsSafeStep cs (cs ++ new ∷ [])
append_step new cs f free = record {
  single = λ n. ground (
    arith,
    f n,
    rowcount-append (is_frozen_for n) cs new,
    rowcount-select_one-none (is_frozen_for new.node_id) cs free,
  );
  history =
      λ n v c h. (c, rw (select_one-append (is_version_of n v) cs new) (rw h), refl, λ _. refl);
}

module _ (node_id version snapshot : String) where
  existing_step :
      (o : Option ContractRow) (s : Store) (r : Store × ContractReply)
      → freeze_existing_or_new node_id version snapshot o s ≡ ok r
      → IsSingleFrozen s.contracts
      → IsSafeStep s.contracts r.0.contracts
  unfolding freeze_existing_or_new reuse_contract insert_contract
  existing_step (some c) s r h f =
      let h₂ =
        (require-eq-ok (c.state == frozen) _ _
          (require-eq-ok (c.snapshot == snapshot) _ _ h).1).1 in
      rw (← ok-injective _ r h₂) (same_step s.contracts f)
  existing_step none s r h f =
      let (free, h₁) = require-eq-ok (is_none (get_active_test_contract node_id s)) _ _ h in
      rw (← ok-injective _ r h₁) (append_step _ s.contracts f (ground arith))

  -- A freeze that returns, from a table with at most one frozen contract for each node, leaves
  -- such a table, keeps every snapshot, and changes no invalidated contract.
  pub freeze-IsSafeStep :
      (version_in content_hash : String → String) (s : Store) (r : Store × ContractReply)
      → freeze_test_contract version_in content_hash node_id version snapshot s ≡ ok r
      → IsSingleFrozen s.contracts
      → IsSafeStep s.contracts r.0.contracts
  unfolding freeze_test_contract
  freeze-IsSafeStep version_in content_hash s r h =
      existing_step (get_test_contract node_id version s) s r
        (require-eq-ok (content_hash snapshot == version) _ _
          (require-eq-ok (version_in snapshot == version) _ _ h).1).1

module _ (node_id version reason : String) where
  row_step :
      (o : Option ContractRow) (s : Store) (r : Store × ContractReply)
      → invalidate_row node_id version reason o s ≡ ok r
      → IsSingleFrozen s.contracts
      → IsSafeStep s.contracts r.0.contracts
  unfolding invalidate_row
  row_step none s r h f = absurd (ground arith)
  row_step (some c) s r h f = elim (Bool-cases (c.state == invalidated)) [
    | inl e ↦ rw (← ok-injective _ r (rw e at h)) (same_step s.contracts f)
    | inr e ↦
        rw (← ok-injective _ r (rw e at h)) (invalidate_step node_id version reason s.contracts f)
  ]

  -- An invalidation that returns, from a table with at most one frozen contract for each node,
  -- leaves such a table, keeps every snapshot, and changes no invalidated contract.
  pub invalidate-IsSafeStep :
      (s : Store) (r : Store × ContractReply)
      → invalidate_test_contract node_id version reason s ≡ ok r
      → IsSingleFrozen s.contracts
      → IsSafeStep s.contracts r.0.contracts
  unfolding invalidate_test_contract
  invalidate-IsSafeStep s r h =
      row_step (get_test_contract node_id version s) s r
        (require-eq-ok (not (reason == "")) _ _ h).1
