-- ===== src/Mailbox/Delivery.antt =====
-- The operations of agent/runtime/persistent_mailbox.py. What an operation reads from outside is
-- its argument: the clock, a fresh token, and whether another process holds the database lock.
use bridle.Mailbox.Table.{
  AgentAddress, MailboxResult, row_result, earliest, ResultStatus, Message, MailEnvelope,
  bare_result, pending, is_message, last_sequence, existing, closed, mailbox_busy, retry_wait,
  active_count, backpressure, inserted, empty, leased, claimed, mail_status_eq, address_eq,
}
use bridle.Prelude.{
  List, [], ◌∷◌, ◌++◌, none, some, false, Option, Bool, ℕ, String, select_one, update_where, leb,
  if◌then◌else◌, ◌==◌, ◌+◌, ◌&&◌, ◌||◌, string_eq, nat_eq, option_eq,
}
use bridle.Errors.{◌>>◌, require, ok, Result, mailbox_error, raise, assertion_error}

-- The fields of a `PersistentMailbox` that its operations read. Its durations are in microseconds.
pub record Consumer : Type 0 where
  pub project_id : String
  pub consumer_id : String
  pub capacity : ℕ
  pub lease : ℕ
  pub retry_base : ℕ
  pub retry_max : ℕ
  pub is_closed : Bool

pub record Moment : Type 0 where
  pub now : ℕ
  pub is_locked : Bool

abbrev pub MailTx : Type 0 → Type 0
MailTx A = List Message → Result (List Message × A)

-- `_validate_target`
abbrev pub validate_target : Consumer → AgentAddress → Result (Unit {0})
validate_target c target =
    require (target.project_id == c.project_id) (mailbox_error "invalid_address")

-- `BEGIN IMMEDIATE` fails while another connection holds the lock.
abbrev pub unless_locked : Moment → MailTx MailboxResult → MailTx MailboxResult
unless_locked t body ms = if t.is_locked then ok (ms, bare_result mailbox_busy) else body ms

-- The row as it stands after a write, and the reply made of it.
unfoldable pub written_message : String → (Message → MailboxResult) → MailTx MailboxResult
unfolding select_one
written_message message_id reply ms = elim (select_one (is_message message_id) ms) [
  | none ↦ raise assertion_error
  | some m ↦ ok (ms, reply m)
]

abbrev pub pending_message : MailEnvelope → ℕ → ℕ → Message
pending_message e sequence_no now = record {
  message_id = e.message_id;
  source_address = e.source;
  target_address = e.target;
  message_type = e.message_type;
  payload_json = e.payload_json;
  sequence_no = sequence_no;
  status = pending;
  attempt = 0;
  next_retry_at = none;
  lease_owner = none;
  lease_token = none;
  lease_expires_at = none;
  created_at = now;
  updated_at = now;
}

-- A message id that the table has is answered from its row; a new one needs room.
unfoldable pub enqueue_existing_or_new :
    Consumer → Moment → MailEnvelope → Option Message → MailTx MailboxResult
unfolding row_result written_message last_sequence
enqueue_existing_or_new c t e (some m) ms = ok (ms, row_result existing m)
enqueue_existing_or_new c t e none ms =
    if leb c.capacity (active_count ms)
    then ok (ms, record (bare_result backpressure) { message_id = some e.message_id })
    else written_message e.message_id (row_result inserted)
        (ms ++ pending_message e (last_sequence ms + 1) t.now ∷ [])

unfoldable pub enqueue : Consumer → Moment → MailEnvelope → MailTx MailboxResult
unfolding enqueue_existing_or_new select_one
enqueue c t e ms = if c.is_closed then ok (ms, bare_result closed) else do
  validate_target c e.source
  validate_target c e.target
  unless_locked t
      (λ rows. enqueue_existing_or_new c t e (select_one (is_message e.message_id) rows) rows) ms

-- `value is not None and value <= now`
abbrev pub is_due : ℕ → Option ℕ → Bool
is_due now none = false
is_due now (some at) = leb at now

-- The `WHERE` of `claim`.
abbrev pub is_claimable : AgentAddress → ℕ → Message → Bool
is_claimable target now m =
    m.target_address == target
    && (m.status == pending
        || m.status == retry_wait && is_due now m.next_retry_at
        || m.status == leased && is_due now m.lease_expires_at)

abbrev pub claimed_message : Consumer → String → ℕ → Message → Message
claimed_message c token now m = record m {
  status = leased;
  attempt = m.attempt + 1;
  next_retry_at = none;
  lease_owner = some c.consumer_id;
  lease_token = some token;
  lease_expires_at = some (now + c.lease);
  updated_at = now;
}

abbrev pub leased_result : ResultStatus → String → ℕ → Message → MailboxResult
leased_result status token expires m = record (row_result status m) {
  lease_token = some token;
  lease_expires_at = some expires;
}

unfoldable pub claim_row : Consumer → Moment → String → Option Message → MailTx MailboxResult
unfolding row_result written_message
claim_row c t token none ms = ok (ms, bare_result empty)
claim_row c t token (some m) ms =
    written_message m.message_id (leased_result claimed token (t.now + c.lease))
      (update_where (is_message m.message_id) (claimed_message c token t.now) ms)

unfoldable pub claim : Consumer → Moment → String → AgentAddress → MailTx MailboxResult
unfolding claim_row earliest
claim c t token target ms = do
  validate_target c target
  if c.is_closed
      then ok (ms, bare_result closed)
      else unless_locked t
          (λ rows. claim_row c t token (earliest (is_claimable target t.now) rows) rows) ms
