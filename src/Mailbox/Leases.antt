-- ===== src/Mailbox/Leases.antt =====
-- What the holder of a lease does in agent/runtime/persistent_mailbox.py: `renew`, `ack`, `nack`,
-- and `close`, which gives the leases of a consumer back.
use bridle.Mailbox.Delivery.{
  Consumer, written_message, Moment, MailTx, leased_result, validate_target, unless_locked,
}
use bridle.Mailbox.Table.{
  MailStatus, row_result, Message, AgentAddress, MailboxResult, bare_result, acked, closed, renewed,
  mailbox_busy, is_message, pending, nacked, delivered, retry_wait, leased, lost_lease,
  mail_status_eq, address_eq,
}
use bridle.Prelude.{
  List, none, some, true, false, Option, Bool, ℕ, String, update_where, leb, ltb, ◌==◌, ◌-◌, ◌+◌,
  min, ◌*◌, if◌then◌else◌, ◌^◌, select_one, ◌&&◌, option_eq, string_eq,
}
use bridle.Errors.{◌>>◌, ok, require, overflow_error}

-- `value is not None and value > now`
abbrev pub is_running_at : ℕ → Option ℕ → Bool
is_running_at now none = false
is_running_at now (some expires) = ltb now expires

-- `_lease_matches` on a row.
abbrev pub owns_lease : Consumer → String → AgentAddress → ℕ → Message → Bool
owns_lease c token target now m =
    m.status == leased
    && m.lease_owner == some c.consumer_id
    && m.lease_token == some token
    && m.target_address == target
    && is_running_at now m.lease_expires_at

-- `_lost_lease`
unfoldable pub lost_lease_result : Option Message → MailboxResult
unfolding row_result
lost_lease_result none = bare_result lost_lease
lost_lease_result (some m) = row_result lost_lease m

-- The common part of `renew`, `ack` and `nack`: the row of the message is written by the holder of
-- its lease only.
unfoldable pub with_lease :
    Consumer
    → Moment
    → String
    → AgentAddress
    → (Message → MailTx MailboxResult)
    → Option Message
    → MailTx MailboxResult
unfolding lost_lease_result
with_lease c t token target body none ms = ok (ms, lost_lease_result none)
with_lease c t token target body (some m) ms =
    if owns_lease c token target t.now m then body m ms else ok (ms, lost_lease_result (some m))

abbrev pub on_leased :
    Consumer
    → Moment
    → String
    → String
    → AgentAddress
    → (Message → MailTx MailboxResult)
    → MailTx MailboxResult
on_leased c t message_id token target body ms = do
  validate_target c target
  unless_locked t
      (λ rows. with_lease c t token target body (select_one (is_message message_id) rows) rows) ms

abbrev pub renewed_message : Consumer → ℕ → Message → Message
renewed_message c now m = record m { lease_expires_at = some (now + c.lease); updated_at = now }

unfoldable pub renew : Consumer → Moment → String → String → AgentAddress → MailTx MailboxResult
unfolding with_lease row_result written_message
renew c t message_id token target = on_leased c t message_id token target (λ m ms.
    written_message message_id (leased_result renewed token (t.now + c.lease))
      (update_where (is_message m.message_id) (renewed_message c t.now) ms))

abbrev pub unleased : MailStatus → Option ℕ → ℕ → Message → Message
unleased status next_retry_at now m = record m {
  status = status;
  next_retry_at = next_retry_at;
  lease_owner = none;
  lease_token = none;
  lease_expires_at = none;
  updated_at = now;
}

unfoldable pub ack : Consumer → Moment → String → String → AgentAddress → MailTx MailboxResult
unfolding with_lease row_result written_message
ack c t message_id token target = on_leased c t message_id token target (λ m ms.
    written_message message_id (row_result acked)
      (update_where (is_message m.message_id) (unleased delivered none t.now) ms))

-- `min(retry_base_seconds * (2 ** max(0, attempt - 1)), retry_max_seconds)`
abbrev pub retry_delay : Consumer → ℕ → ℕ
retry_delay c attempt = min (c.retry_base * 2 ^ (attempt - 1)) c.retry_max

-- `2 ** max(0, attempt - 1)` is in the range of a float.
abbrev pub is_float_power : ℕ → Bool
is_float_power attempt = leb (attempt - 1) 1023

unfoldable pub nack : Consumer → Moment → String → String → AgentAddress → MailTx MailboxResult
unfolding with_lease row_result written_message
nack c t message_id token target = on_leased c t message_id token target (λ m ms. do
  require (is_float_power m.attempt) overflow_error
  let retry_at = t.now + retry_delay c m.attempt
  written_message message_id (λ r. record (row_result nacked r) { next_retry_at = some retry_at })
      (update_where (is_message m.message_id) (unleased retry_wait (some retry_at) t.now) ms))

abbrev pub is_leased_by : String → Message → Bool
is_leased_by consumer_id m = m.status == leased && m.lease_owner == some consumer_id

-- `close`: the leases of the consumer are released.
unfoldable pub close : Consumer → Moment → List Message → (Consumer × List Message) × MailboxResult
unfolding update_where
close c t ms =
    if c.is_closed
    then ((c, ms), bare_result closed)
    else if t.is_locked
    then ((c, ms), bare_result mailbox_busy)
    else (
      (
        record c { is_closed = true },
        update_where (is_leased_by c.consumer_id) (unleased pending none t.now) ms,
      ),
      bare_result closed,
    )
