-- ===== src/Workflow/Contracts.antt =====
-- `freeze_test_contract` and `invalidate_test_contract` of features/project_map/store.py. The
-- readers of a snapshot's version and content hash are arguments.
pub mod Frozen
pub mod Bound
use bridle.Errors.{◌>>◌, raise, not_found_error, ok, require, validation_error, conflict_error}
use bridle.Workflow.Store.{
  get_test_contract, ContractState, record_change, ContractRow, Tx, get_active_test_contract,
  invalidated, is_version_of, frozen, contract_state_eq,
}
use Prim.Native.String.{◌++◌ as text_append, String}
use bridle.Prelude.{
  ◌++◌, List, [], ◌∷◌, none, some, true, false, Option, zero, suc, inl, inr, Bool, if◌then◌else◌,
  ◌==◌, update_where, ◌&&◌, is_none, not, string_eq,
}

-- The reply of both operations.
pub record ContractReply : Type 0 where
  pub node_id : String
  pub contract_version : String
  pub state : ContractState
  pub reason : Option String
  pub applied : Bool

-- The version is in the table already: the same frozen snapshot is answered, all else is refused.
unfoldable pub reuse_contract : String → String → String → ContractRow → Tx ContractReply
reuse_contract node_id version serialized existing s = do
  require (existing.snapshot == serialized) (conflict_error "test_contract_version_conflict")
  require (existing.state == frozen) (conflict_error "test_contract_version_invalidated")
  ok (
    s,
    record {
      node_id = node_id;
      contract_version = version;
      state = frozen;
      reason = none;
      applied = false;
    },
  )

unfoldable pub insert_contract : String → String → String → Tx ContractReply
unfolding record_change get_active_test_contract
insert_contract node_id version serialized s = do
  require (is_none (get_active_test_contract node_id s))
      (conflict_error "test_contract_active_conflict")
  ok (
    record_change "test_contract" (text_append node_id (text_append ":" version)) "freeze"
        (record s {
          contracts =
              s.contracts
              ++ record {
                node_id = node_id;
                contract_version = version;
                snapshot = serialized;
                state = frozen;
                invalidation_reason = none;
              }
                ∷ [];
        }),
    record {
      node_id = node_id;
      contract_version = version;
      state = frozen;
      reason = none;
      applied = true;
    },
  )

unfoldable pub freeze_existing_or_new :
    String → String → String → Option ContractRow → Tx ContractReply
unfolding reuse_contract insert_contract
freeze_existing_or_new node_id version serialized (some existing) s =
    reuse_contract node_id version serialized existing s
freeze_existing_or_new node_id version serialized none s =
    insert_contract node_id version serialized s

-- `snapshot` is the serialized text; `version_in` reads the version that it names, and
-- `content_hash` is the SHA-256 of the rest of it.
unfoldable pub freeze_test_contract :
    (String → String) → (String → String) → String → String → String → Tx ContractReply
unfolding freeze_existing_or_new get_test_contract
freeze_test_contract version_in content_hash node_id version snapshot s = do
  require (version_in snapshot == version) validation_error
  require (content_hash snapshot == version) validation_error
  freeze_existing_or_new node_id version snapshot (get_test_contract node_id version s) s

-- `str(reason or "")`
abbrev pub or_empty : Option String → String
or_empty none = ""
or_empty (some reason) = reason

-- The row of the version, if it is there: an invalidated one is answered again, a frozen one is
-- written.
unfoldable pub invalidate_row : String → String → String → Option ContractRow → Tx ContractReply
unfolding record_change
invalidate_row node_id version reason none s = raise not_found_error
invalidate_row node_id version reason (some row) s =
    if row.state == invalidated
    then ok (
      s,
      record {
        node_id = node_id;
        contract_version = version;
        state = invalidated;
        reason = some (or_empty row.invalidation_reason);
        applied = false;
      },
    )
    else ok (
      record_change "test_contract" (text_append node_id (text_append ":" version)) "invalidate"
          (record s {
            contracts =
                update_where (λ c. is_version_of node_id version c && c.state == frozen)
                  (λ c. record c { state = invalidated; invalidation_reason = some reason })
                  s.contracts;
          }),
      record {
        node_id = node_id;
        contract_version = version;
        state = invalidated;
        reason = some reason;
        applied = true;
      },
    )

-- `reason` is the caller's text with its outer white space removed.
unfoldable pub invalidate_test_contract : String → String → String → Tx ContractReply
unfolding invalidate_row get_test_contract
invalidate_test_contract node_id version reason s = do
  require (not (reason == "")) validation_error
  invalidate_row node_id version reason (get_test_contract node_id version s) s
