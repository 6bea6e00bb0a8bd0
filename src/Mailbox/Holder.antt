-- ===== src/Mailbox/Holder.antt =====
-- The holder of a lease: `ack` and `nack` of agent/runtime/persistent_mailbox.py.
use bridle.Mailbox.History.Durable.{Calls-KeepsMail}
use bridle.Mailbox.Fencing.{open_lease}
use bridle.Mailbox.Effects.{written_message_lem, ack-Effect}
use bridle.Mailbox.Sound.{IsMailTable, Effect-IsMailTable}
use bridle.Mailbox.Delivery.{Consumer, Moment, MailTx, is_claimable}
use bridle.Mailbox.Leases.{
  owns_lease, ack, with_lease, nack, unleased, on_leased, retry_delay, is_float_power,
}
use bridle.Mailbox.Table.{
  acked, nacked, delivered, AgentAddress, Message, is_message, MailboxResult, row_result,
  retry_wait,
}
use bridle.Mailbox.History.{Calls}
use mathlib.Core.Path.{subst}
use bridle.Errors.{ok, ok-injective}
use bridle.Prelude.{
  ◌∙◌, List, none, some, true, false, refl, ℕ, String, ◌≡◌, select_one, update_where,
  select_one-update_where, ◌≤◌, eq_self, sym, ◌+◌, leb, ap, arith, min, ◌*◌, ◌^◌, ◌-◌,
}

module _ (c : Consumer) (t : Moment) (message_id token : String) (target : AgentAddress)
    (ms : List Message) (m : Message) (free : t.is_locked ≡ false)
    (own : target.project_id ≡ c.project_id) (at : select_one (is_message message_id) ms ≡ some m)
    (held : owns_lease c token target t.now m ≡ true) where
  holder_served :
      (body : Message → MailTx MailboxResult)
      → on_leased c t message_id token target body ms ≡ body m ms
  unfolding with_lease
  holder_served body = open_lease c t message_id token target ms m free own at body ∙ rw held refl

  written_row :
      (f : Message → Message)
      → ((r : Message) → (f r).message_id ≡ r.message_id)
      → select_one (is_message message_id) (update_where (is_message m.message_id) f ms)
        ≡ some (f m)
  written_row f keys =
      rw
        (select_one-update_where (is_message message_id) (is_message m.message_id) f ms
          (λ r h. rw (keys r) refl))
        (rw at (rw (eq_self {A = String} m.message_id) refl))

  abbrev delivered_message : Message
  delivered_message = unleased delivered none t.now m

  -- The holder's `ack` returns, and the message is delivered.
  pub ack-delivered :
      (r : List Message × MailboxResult) × (ack c t message_id token target ms ≡ ok r)
      × (r.1 ≡ row_result acked (unleased delivered none t.now m))
      × (select_one (is_message message_id) r.0 ≡ some (unleased delivered none t.now m))
  unfolding ack
  ack-delivered = (
    (
      update_where (is_message m.message_id) (unleased delivered none t.now) ms,
      row_result acked delivered_message,
    ),
    holder_served _
        ∙ written_message_lem message_id (row_result acked)
            (update_where (is_message m.message_id) (unleased delivered none t.now) ms)
            delivered_message (written_row (unleased delivered none t.now) (λ r. refl)),
    refl,
    written_row (unleased delivered none t.now) (λ r. refl),
  )

  -- Once the `ack` of the holder of a lease has returned on a valid mail table, the row of the
  -- message stays as the acknowledgement wrote it, delivered, whatever calls follow.
  pub ack-final :
      (r : List Message × MailboxResult) (ms' : List Message)
      → IsMailTable c.capacity ms
      → ack c t message_id token target ms ≡ ok r
      → Calls c.capacity r.0 ms'
      → select_one (is_message message_id) ms' ≡ some (unleased delivered none t.now m)
  ack-final r ms' v h calls =
      let (r', h', _, row) = ack-delivered in
      let same : r' ≡ r = ok-injective r' r (sym h' ∙ h) in
      let row' : select_one (is_message message_id) r.0 ≡ some delivered_message =
        subst (λ x. select_one (is_message message_id) x.0 ≡ some delivered_message) same row in
      let v' =
        Effect-IsMailTable c t.now ms r.0 (ack-Effect c t message_id token target ms r h) v in
      let (m', found, later) = Calls-KeepsMail calls v' message_id delivered_message row' in
      found ∙ ap some (later.final refl)

  -- The `nack` of the holder of a lease returns on an unlocked table if there were at most 1024
  -- attempts, and the message can be claimed for the target from `min(retry_base * 2 ** (attempt -
  -- 1), retry_max)` after now on and not before.
  pub nack-delayed :
      (later : ℕ)
      → m.attempt ≤ 1024
      → (r : List Message × MailboxResult) × (m' : Message) × (nack c t message_id token target ms
          ≡ ok r)
        × (r.1.next_retry_at ≡ some (t.now + min (c.retry_base * 2 ^ (m.attempt - 1)) c.retry_max))
        × (select_one (is_message message_id) r.0 ≡ some m')
        × (is_claimable target later m'
            ≡ leb (t.now + min (c.retry_base * 2 ^ (m.attempt - 1)) c.retry_max) later)
  unfolding nack row_result
  nack-delayed later few =
      let float : is_float_power m.attempt ≡ true = ground arith in
      let when = t.now + retry_delay c m.attempt in
      let f = unleased retry_wait (some when) t.now in
      (
        (
          update_where (is_message m.message_id) f ms,
          record (row_result nacked (f m)) { next_retry_at = some when },
        ),
        f m,
        holder_served _
            ∙ rw float (
                written_message_lem message_id
                  (λ x. record (row_result nacked x) { next_retry_at = some when })
                  (update_where (is_message m.message_id) f ms) (f m) (written_row f (λ r. refl))),
        refl,
        written_row f (λ r. refl),
        ground arith,
      )
