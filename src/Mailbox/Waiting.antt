-- ===== src/Mailbox/Waiting.antt =====
-- What `receive` of agent/runtime/persistent_mailbox.py asks of the table before it waits.
use bridle.Mailbox.Delivery.{Consumer, validate_target}
use bridle.Mailbox.Table.{
  Message, AgentAddress, retry_wait, address_eq, is_active, leased, mail_status_eq,
}
use mathlib.Core.Option
use bridle.Prelude.{
  List, [], ◌∷◌, none, some, false, Option, Bool, ℕ, select_one, min, if◌then◌else◌, ◌-◌, ◌==◌, not,
  is_none, ◌&&◌, nat_eq,
}
use bridle.Errors.{◌>>◌, ◌>>=◌, Result, ok}

-- `has_pending`
unfoldable pub has_pending : Consumer → AgentAddress → List Message → Result Bool
unfolding select_one
has_pending c target ms = do
  validate_target c target
  ok (not (is_none (select_one (λ m. m.target_address == target && is_active m) ms)))

-- `is_empty_at_version`: the wake version is read before and after the table.
unfoldable pub is_empty_at_version :
    Consumer → AgentAddress → ℕ → ℕ → ℕ → List Message → Result Bool
unfolding has_pending
is_empty_at_version c target expected before after ms = do
  validate_target c target
  if not (before == expected)
      then ok false
      else do found ← has_pending c target ms; ok (not found && after == expected)

-- The time that the status of a row waits for.
abbrev pub due_at : Message → Option ℕ
due_at m =
    if m.status == retry_wait
    then m.next_retry_at
    else if m.status == leased
    then m.lease_expires_at
    else none

abbrev pub earlier_time : Option ℕ → Option ℕ → Option ℕ
earlier_time none rest = rest
earlier_time (some t) none = some t
earlier_time (some t) (some u) = some (min t u)

unfoldable pub next_due : AgentAddress → List Message → Option ℕ
next_due target [] = none
next_due target (m ∷ ms) =
    earlier_time (if m.target_address == target then due_at m else none) (next_due target ms)

-- `_next_due_delay`
unfoldable pub next_due_delay : AgentAddress → ℕ → List Message → Option ℕ
unfolding next_due
next_due_delay target now ms = Option.map (λ at. at - now) (next_due target ms)
