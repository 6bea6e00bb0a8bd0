-- ===== src/Mailbox/Examples.antt =====
-- Two consumers and a mail table of agent/runtime/persistent_mailbox.py on small inputs.
use bridle.Mailbox.Idle.{is_empty_at_version-idle}
use bridle.Mailbox.Schedule.{next_due_delay-exact}
use bridle.Mailbox.Waiting.{next_due_delay, is_empty_at_version}
use bridle.Mailbox.Closing.{close-released}
use bridle.Mailbox.Holder.{ack-final, nack-delayed}
use bridle.Mailbox.Idempotence.{enqueue-once}
use bridle.Mailbox.Fencing.{other_token, IsRefused, foreign_refused, superseded-IsRefused}
use bridle.Mailbox.Order.{ClaimOutcome, claim-IsFirst}
use bridle.Mailbox.History.Valid.{Calls-IsMailTable, no_mail-IsMailTable}
use bridle.Mailbox.Sound.{IsMailTable}
use bridle.Mailbox.History.Durable.{KeepsMail, Calls-KeepsMail, IsLater}
use bridle.Mailbox.Delivery.{
  claim, Consumer, Moment, claimed_message, pending_message, enqueue, leased_result, is_claimable,
  is_due,
}
use bridle.Mailbox.Leases.{renew, unleased, ack, nack, is_leased_by, close}
use bridle.Mailbox.Table.{
  existing, inserted, claimed, empty, acked, lost_lease, closed, delivered, Message, MailEnvelope,
  AgentAddress, MailboxResult, address_eq, mail_status_eq, earliest, last_sequence, row_result,
  is_message, bare_result,
}
use bridle.Mailbox.History.{Calls, here, next, enqueuing, claiming, acking}
use mathlib.Core.Bool.{true≢false}
use mathlib.Core.Option
use bridle.Errors.{ok}
use bridle.Prelude.{
  List, [], ◌∷◌, none, some, true, false, refl, ℕ, String, ◌≡◌, select_one, update_where, rowcount,
  string_eq, option_eq, nat_eq, All, ◌↔◌, leb, ap, ◌==◌, ◌+◌, arith,
}

abbrev address : String → AgentAddress
address agent_id = record { project_id = "p"; agent_id = agent_id; generation = 1 }

abbrev consumer : String → Consumer
consumer consumer_id = record {
  project_id = "p";
  consumer_id = consumer_id;
  capacity = 2;
  lease = 30;
  retry_base = 1;
  retry_max = 60;
  is_closed = false;
}

abbrev at_time : ℕ → Moment
at_time now = record { now = now; is_locked = false }

abbrev mail : String → MailEnvelope
mail message_id = record {
  message_id = message_id;
  message_type = "task";
  source = address "a";
  target = address "b";
  payload_json = "{}";
  sequence_no = none;
  attempt = 0;
  created_at = none;
  updated_at = none;
}

abbrev waiting : Message
waiting = pending_message (mail "m1") 1 5

abbrev sent : List Message
sent = waiting ∷ []

abbrev held : Message
held = claimed_message (consumer "c1") "t1" 10 waiting

abbrev leased : List Message
leased = held ∷ []

sent-Calls : Calls 2 [] sent
unfolding enqueue claim renew ack nack select_one update_where rowcount string_eq option_eq nat_eq
    address_eq mail_status_eq earliest last_sequence row_result
sent-Calls =
    next (consumer "c1") (at_time 5) refl here
      (enqueuing (mail "m1") (sent, row_result inserted waiting) refl)

leased-Calls : Calls 2 [] leased
unfolding enqueue claim renew ack nack select_one update_where rowcount string_eq option_eq nat_eq
    address_eq mail_status_eq earliest last_sequence row_result
leased-Calls =
    next (consumer "c1") (at_time 10) refl sent-Calls
      (claiming "t1" (address "b") (leased, leased_result claimed "t1" 40 held) refl)

sent-IsMailTable : IsMailTable 2 sent
sent-IsMailTable = Calls-IsMailTable sent-Calls (no_mail-IsMailTable 2)

leased-IsMailTable : IsMailTable 2 leased
leased-IsMailTable = Calls-IsMailTable leased-Calls (no_mail-IsMailTable 2)

Calls-IsMailTable_example : IsMailTable 2 leased
Calls-IsMailTable_example = Calls-IsMailTable leased-Calls (no_mail-IsMailTable 2)

from_sent : Calls 2 sent leased
unfolding enqueue claim renew ack nack select_one update_where rowcount string_eq option_eq nat_eq
    address_eq mail_status_eq earliest last_sequence row_result
from_sent =
    next (consumer "c1") (at_time 10) refl here
      (claiming "t1" (address "b") (leased, leased_result claimed "t1" 40 held) refl)

Calls-KeepsMail_example : KeepsMail sent leased
Calls-KeepsMail_example = Calls-KeepsMail from_sent sent-IsMailTable

claim-IsFirst_example :
    (r : List Message × MailboxResult) × (claim (consumer "c1") (at_time 10) "t1" (address "b") sent
      ≡ ok r)
    × ClaimOutcome (consumer "c1") (at_time 10) "t1" (address "b") sent refl refl refl r
claim-IsFirst_example =
    claim-IsFirst (consumer "c1") (at_time 10) "t1" (address "b") sent refl refl refl
      sent-IsMailTable.keyed

superseded-IsRefused_example : IsRefused (consumer "c2") (at_time 11) "m1" "t0" (address "b") leased
unfolding enqueue claim renew ack nack select_one update_where rowcount string_eq option_eq nat_eq
    address_eq mail_status_eq earliest last_sequence row_result
superseded-IsRefused_example =
    superseded-IsRefused (consumer "c1") (at_time 10) "t1" (address "b") sent refl refl refl
      sent-IsMailTable.keyed (leased, leased_result claimed "t1" 40 held) "m1" refl refl refl
      (consumer "c2") (at_time 11) "t0" refl refl (λ e. true≢false (ap (λ s. s == "t1") e))

-- The holder itself, with the token of an earlier lease.
foreign_refused_example :
    (renew (consumer "c1") (at_time 11) "m1" "t0" (address "b") leased
      ≡ ok (leased, row_result lost_lease held))
    × (ack (consumer "c1") (at_time 11) "m1" "t0" (address "b") leased
        ≡ ok (leased, row_result lost_lease held))
    × (nack (consumer "c1") (at_time 11) "m1" "t0" (address "b") leased
        ≡ ok (leased, row_result lost_lease held))
unfolding enqueue claim renew ack nack select_one update_where rowcount string_eq option_eq nat_eq
    address_eq mail_status_eq earliest last_sequence row_result
foreign_refused_example =
    foreign_refused (consumer "c1") (at_time 11) "m1" "t0" (address "b") leased held refl refl refl
      (other_token (λ e. true≢false (ap (λ o. o == some "t1") e)))

next_due_delay-exact_example :
    (claim (consumer "c2") (at_time 40) "t2" (address "b") leased ≡ ok (leased, bare_result empty))
    ↔ (is_due 40 (Option.map (λ d. 20 + d) (next_due_delay (address "b") 20 leased)) ≡ false)
unfolding enqueue claim renew ack nack select_one update_where rowcount string_eq option_eq nat_eq
    address_eq mail_status_eq earliest last_sequence row_result
next_due_delay-exact_example =
    next_due_delay-exact (consumer "c2") (address "b") leased refl refl (at_time 20) (at_time 40)
      "t2" "t2" refl refl leased-IsMailTable.keyed leased-IsMailTable.sound refl

abbrev done : Message
done = unleased delivered none 20 held

abbrev settled : List Message
settled = done ∷ []

settled-IsMailTable : IsMailTable 2 settled
unfolding enqueue claim renew ack nack select_one update_where rowcount string_eq option_eq nat_eq
    address_eq mail_status_eq earliest last_sequence row_result
settled-IsMailTable =
    Calls-IsMailTable
      (next (consumer "c1") (at_time 20) refl leased-Calls
        (acking "m1" "t1" (address "b") (settled, row_result acked done) refl))
      (no_mail-IsMailTable 2)

ack-final_example : select_one (is_message "m1") settled ≡ some done
unfolding enqueue claim renew ack nack select_one update_where rowcount string_eq option_eq nat_eq
    address_eq mail_status_eq earliest last_sequence row_result
ack-final_example =
    ack-final (consumer "c1") (at_time 20) "m1" "t1" (address "b") leased held refl refl refl refl
      (settled, row_result acked done) settled leased-IsMailTable refl here

-- The delay of the third attempt is four times the base.
abbrev tried : Message
tried = record held { attempt = 3 }

nack-delayed_example :
    (r : List Message × MailboxResult) × (m' : Message) × (nack
        (consumer "c1")
        (at_time 20)
        "m1"
        "t1"
        (address "b")
        (tried ∷ [])
      ≡ ok r)
    × (r.1.next_retry_at ≡ some 24)
    × (select_one (is_message "m1") r.0 ≡ some m')
    × (is_claimable (address "b") 23 m' ≡ leb 24 23)
unfolding enqueue claim renew ack nack select_one update_where rowcount string_eq option_eq nat_eq
    address_eq mail_status_eq earliest last_sequence row_result
nack-delayed_example =
    nack-delayed (consumer "c1") (at_time 20) "m1" "t1" (address "b") (tried ∷ []) tried refl refl
      refl refl 23 (omega arith)

enqueue-once_example :
    (m' : Message) × (enqueue (consumer "c2") (at_time 12) (mail "m1") leased
      ≡ ok (leased, row_result existing m'))
    × IsLater waiting m'
unfolding enqueue claim renew ack nack select_one update_where rowcount string_eq option_eq nat_eq
    address_eq mail_status_eq earliest last_sequence row_result
enqueue-once_example =
    enqueue-once (consumer "c2") (at_time 12) (mail "m1") leased refl refl refl refl waiting sent
      refl sent-IsMailTable from_sent

close-released_example :
    All (λ x. is_leased_by "c1" x ≡ false) (close (consumer "c1") (at_time 20) leased).0.1
    × (m' : Message) × (select_one (is_message "m1") (close (consumer "c1") (at_time 20) leased).0.1
        ≡ some m')
    × (is_claimable (address "b") 20 m' ≡ true)
    × (enqueue (close (consumer "c1") (at_time 20) leased).0.0 (at_time 21) (mail "m2") sent
        ≡ ok (sent, bare_result closed))
    × (claim (close (consumer "c1") (at_time 20) leased).0.0 (at_time 21) "t3" (address "b") sent
        ≡ ok (sent, bare_result closed))
unfolding enqueue claim renew ack nack select_one update_where rowcount string_eq option_eq nat_eq
    address_eq mail_status_eq earliest last_sequence row_result
close-released_example =
    close-released (consumer "c1") (at_time 20) leased refl refl "m1" held 20 (at_time 21)
      (mail "m2") "t3" (address "b") sent refl refl refl

abbrev version : ℕ
version = 3

is_empty_at_version-idle_example :
    (version ≡ version)
    × (version ≡ version)
    × (claim (consumer "c2") (at_time 50) "t2" (address "b") settled
        ≡ ok (settled, bare_result empty))
unfolding enqueue claim renew ack nack select_one update_where rowcount string_eq option_eq nat_eq
    address_eq mail_status_eq earliest last_sequence row_result is_empty_at_version
is_empty_at_version-idle_example =
    is_empty_at_version-idle (consumer "c1") (address "b") settled version version version
      (consumer "c2") (at_time 50) "t2" refl refl refl refl settled-IsMailTable.keyed
