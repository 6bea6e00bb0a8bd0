-- ===== src/Mailbox/History.antt =====
-- Every sequence of calls that return, by any number of consumers of one mail table of
-- agent/runtime/persistent_mailbox.py with the same capacity.
pub mod Valid
pub mod Durable
use bridle.Mailbox.Leases.{renew, ack, nack, close}
use bridle.Mailbox.Delivery.{claim}
use bridle.Errors.{ok}
use bridle.Mailbox.Table.{Message, MailEnvelope, MailboxResult, AgentAddress}
use bridle.Mailbox.Delivery.{Consumer, Moment, enqueue}
use bridle.Prelude.{
  ◌∙◌, List, [], ◌∷◌, ◌++◌, none, some, true, false, Option, zero, suc, inl, inr, refl, Bool, ℕ,
  String, ◌≡◌,
}

-- One call of a consumer at a moment. A call that raises leaves the table as it was.
pub data Call (c : Consumer) (t : Moment) (ms : List Message) : List Message → Type 0 where
  enqueuing :
      (e : MailEnvelope) (r : List Message × MailboxResult)
      → enqueue c t e ms ≡ ok r
      → Call c t ms r.0
  claiming :
      (token : String) (target : AgentAddress) (r : List Message × MailboxResult)
      → claim c t token target ms ≡ ok r
      → Call c t ms r.0
  renewing :
      (message_id token : String) (target : AgentAddress) (r : List Message × MailboxResult)
      → renew c t message_id token target ms ≡ ok r
      → Call c t ms r.0
  acking :
      (message_id token : String) (target : AgentAddress) (r : List Message × MailboxResult)
      → ack c t message_id token target ms ≡ ok r
      → Call c t ms r.0
  nacking :
      (message_id token : String) (target : AgentAddress) (r : List Message × MailboxResult)
      → nack c t message_id token target ms ≡ ok r
      → Call c t ms r.0
  closing : Call c t ms (close c t ms).0.1

pub data Calls (capacity : ℕ) (ms : List Message) : List Message → Type 0 where
  here : Calls capacity ms ms
  next :
      (c : Consumer) (t : Moment) {ms' ms'' : List Message}
      → c.capacity ≡ capacity
      → Calls capacity ms ms'
      → Call c t ms' ms''
      → Calls capacity ms ms''
