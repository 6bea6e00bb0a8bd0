-- ===== src/Mailbox/Closing.antt =====
-- `close` of agent/runtime/persistent_mailbox.py.
use bridle.Mailbox.Leases.{is_leased_by, close, unleased}
use bridle.Mailbox.Delivery.{claim, Consumer, Moment, enqueue, is_claimable}
use bridle.Mailbox.Table.{
  closed, pending, Message, MailEnvelope, AgentAddress, is_message, bare_result, MailStatus,
}
use bridle.Errors.{ok}
use bridle.Prelude.{
  List, [], ◌∷◌, none, some, true, false, refl, ℕ, String, update_where, All, ◌≡◌, arith,
  select_one, select_one-update_where, eq_self,
}

none_leased :
    (consumer_id : String) (now : ℕ) (ms : List Message)
    → All
        (λ m. is_leased_by consumer_id m ≡ false)
        (update_where (is_leased_by consumer_id) (unleased pending none now) ms)
unfolding update_where
none_leased consumer_id now [] = tt
none_leased consumer_id now (m ∷ ms) = (ground arith, none_leased consumer_id now ms)

module _ (c : Consumer) (t : Moment) (ms : List Message) (open_box : c.is_closed ≡ false)
    (free : t.is_locked ≡ false) where
  -- After an open consumer is closed on an unlocked table it holds no lease; a message that it
  -- held can be claimed at once for its target; and whatever it enqueues or claims for its own
  -- project from then on is answered by `closed` and changes nothing.
  pub close-released :
      (message_id : String) (m : Message) (now : ℕ) (later : Moment) (e : MailEnvelope)
      (token : String) (target : AgentAddress) (ms' : List Message)
      → select_one (is_message message_id) ms ≡ some m
      → is_leased_by c.consumer_id m ≡ true
      → target.project_id ≡ c.project_id
      → All (λ x. is_leased_by c.consumer_id x ≡ false) (close c t ms).0.1
        × (m' : Message) × (select_one (is_message message_id) (close c t ms).0.1 ≡ some m')
        × (is_claimable m.target_address now m' ≡ true)
        × (enqueue (close c t ms).0.0 later e ms' ≡ ok (ms', bare_result closed))
        × (claim (close c t ms).0.0 later token target ms' ≡ ok (ms', bare_result closed))
  unfolding close enqueue claim
  close-released id m now later e token target ms' at held own =
      rw (open_box, free)
        (
          none_leased c.consumer_id t.now ms,
          unleased pending none t.now m,
          rw
              (select_one-update_where (is_message id) (is_leased_by c.consumer_id)
                (unleased pending none t.now) ms (λ r _. refl))
              (rw at (rw held refl)),
          rw (eq_self {A = AgentAddress} m.target_address)
              (rw (eq_self {A = MailStatus} pending) refl),
          refl,
          rw own (rw (eq_self {A = String} c.project_id) refl),
        )
