-- ===== src/Mailbox/History/Valid.antt =====
-- The invariant of the mail table of agent/runtime/persistent_mailbox.py along a sequence of
-- calls.
use bridle.Mailbox.Effects.{
  Effect, enqueue-Effect, claim-Effect, renew-Effect, ack-Effect, nack-Effect, close-Effect,
}
use bridle.Mailbox.Sound.{IsMailTable, Effect-IsMailTable}
use bridle.Mailbox.Delivery.{Consumer, Moment}
use bridle.Mailbox.Table.{Message}
use bridle.Mailbox.History.{
  Call, Calls, enqueuing, claiming, renewing, acking, nacking, closing, here, next,
}
use mathlib.Core.Path.{subst}
use bridle.Prelude.{List, [], ℕ, rowcount, arith, sym}

pub Call-Effect :
    (c : Consumer) (t : Moment) (ms ms' : List Message) → Call c t ms ms' → Effect c t.now ms ms'
Call-Effect c t ms _ (enqueuing e r h) = enqueue-Effect c t e ms r h
Call-Effect c t ms _ (claiming token target r h) = claim-Effect c t token target ms r h
Call-Effect c t ms _ (renewing message_id token target r h) =
    renew-Effect c t message_id token target ms r h
Call-Effect c t ms _ (acking message_id token target r h) =
    ack-Effect c t message_id token target ms r h
Call-Effect c t ms _ (nacking message_id token target r h) =
    nack-Effect c t message_id token target ms r h
Call-Effect c t ms _ closing = close-Effect c t ms

-- Whatever calls any number of consumers of one capacity make on a valid mail table, it stays
-- valid: ids and sequence numbers are keys, exactly the leased rows have a holder, and no more
-- messages than the capacity wait for delivery.
pub Calls-IsMailTable :
    {capacity : ℕ} {ms ms' : List Message}
    → Calls capacity ms ms'
    → IsMailTable capacity ms
    → IsMailTable capacity ms'
Calls-IsMailTable here v = v
Calls-IsMailTable {capacity} (next c t {ms'} {ms''} same calls call) v =
    subst (λ n. IsMailTable n ms'') same
      (Effect-IsMailTable c t.now ms' ms'' (Call-Effect c t ms' ms'' call)
        (subst (λ n. IsMailTable n ms') (sym same) (Calls-IsMailTable calls v)))

pub no_mail-IsMailTable : (capacity : ℕ) → IsMailTable capacity []
unfolding rowcount
no_mail-IsMailTable capacity = record {
  keyed = λ id. omega arith;
  numbered = λ n. omega arith;
  sound = tt;
  bounded = omega arith;
}
