-- ===== src/Mailbox/Idempotence.antt =====
-- `enqueue` of agent/runtime/persistent_mailbox.py, for a message id that is new and for one that
-- is not.
use bridle.Mailbox.History.Durable.{IsLater, Calls-KeepsMail}
use bridle.Mailbox.Sound.{IsMailTable}
use bridle.Mailbox.Delivery.{Consumer, Moment, enqueue, enqueue_existing_or_new}
use bridle.Mailbox.History.{Calls}
use bridle.Mailbox.Table.{existing, MailEnvelope, Message, is_message, row_result}
use bridle.Errors.{ok}
use bridle.Prelude.{◌∙◌, List, some, false, refl, ℕ, String, ◌≡◌, select_one, eq_self}

module _ (c : Consumer) (t : Moment) (e : MailEnvelope) (ms : List Message)
    (open_box : c.is_closed ≡ false) (free : t.is_locked ≡ false)
    (from_own : e.source.project_id ≡ c.project_id)
    (to_own : e.target.project_id ≡ c.project_id) where
  open_enqueue :
      enqueue c t e ms ≡ enqueue_existing_or_new c t e (select_one (is_message e.message_id) ms) ms
  unfolding enqueue
  open_enqueue = rw (open_box, from_own, to_own, free) (rw (eq_self {A = String} c.project_id) refl)

  -- An envelope whose message id the table has had is answered, by an open consumer of the project
  -- on an unlocked table, by `existing` and the row of that message, and changes nothing, whatever
  -- calls came in between.
  pub enqueue-once :
      {capacity : ℕ} (m : Message) (earlier_ms : List Message)
      → select_one (is_message e.message_id) earlier_ms ≡ some m
      → IsMailTable capacity earlier_ms
      → Calls capacity earlier_ms ms
      → (m' : Message) × (enqueue c t e ms ≡ ok (ms, row_result existing m')) × IsLater m m'
  unfolding enqueue_existing_or_new
  enqueue-once m earlier_ms at v calls =
      let (m', at', later) = Calls-KeepsMail calls v e.message_id m at in
      (m', open_enqueue ∙ rw at' refl, later)
