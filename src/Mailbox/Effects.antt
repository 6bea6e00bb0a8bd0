-- ===== src/Mailbox/Effects.antt =====
-- What an operation of agent/runtime/persistent_mailbox.py that returns has done to the table.
use bridle.Mailbox.Leases.{
  renewed_message, unleased, owns_lease, is_leased_by, ack, with_lease, nack, close, is_float_power,
  on_leased, retry_delay, renew,
}
use bridle.Mailbox.Table.{
  Message, MailboxResult, MailEnvelope, is_message, delivered, active_count, retry_wait,
  last_sequence, AgentAddress, earliest, pending,
}
use bridle.Mailbox.Delivery.{
  Consumer, written_message, Moment, MailTx, unless_locked, pending_message, is_claimable,
  claimed_message, enqueue_existing_or_new, claim_row, enqueue, claim,
}
use mathlib.Core.Path.{subst}
use bridle.Prelude.{
  List, [], ◌∷◌, ◌++◌, none, some, true, Option, inl, inr, refl, ℕ, String, select_one, ◌≡◌,
  Bool-cases, ◌<◌, arith, sym, ◌+◌, update_where, leb, ◌==◌, eq-of-==, string_eq, select_one_sound,
  leb-lt,
}
use bridle.Errors.{ok, raise, assertion_error, ok-injective, require-eq-ok}

-- The write of a holder: an extension, a delivery, or a delay.
pub data HolderWrite (c : Consumer) (now : ℕ) : (Message → Message) → Type 0 where
  renewing : HolderWrite c now (renewed_message c now)
  acking : HolderWrite c now (unleased delivered none now)
  nacking : (at : ℕ) → HolderWrite c now (unleased retry_wait (some at) now)

pub data Effect (c : Consumer) (now : ℕ) (ms : List Message) : List Message → Type 0 where
  unchanged : Effect c now ms ms
  appended :
      (e : MailEnvelope)
      → select_one (is_message e.message_id) ms ≡ none
      → active_count ms < c.capacity
      → Effect c now ms (ms ++ pending_message e (last_sequence ms + 1) now ∷ [])
  taken :
      (token : String) (target : AgentAddress) (m : Message)
      → earliest (is_claimable target now) ms ≡ some m
      → Effect c now ms (update_where (is_message m.message_id) (claimed_message c token now) ms)
  written :
      (token : String) (target : AgentAddress) (m : Message) (f : Message → Message)
      → select_one (is_message m.message_id) ms ≡ some m
      → owns_lease c token target now m ≡ true
      → HolderWrite c now f
      → Effect c now ms (update_where (is_message m.message_id) f ms)
  released :
      Effect c now ms (update_where (is_leased_by c.consumer_id) (unleased pending none now) ms)

-- The id by which a row was found is the row's own.
pub selected_by_id :
    (message_id : String) (ms : List Message) (m : Message)
    → select_one (is_message message_id) ms ≡ some m
    → select_one (is_message m.message_id) ms ≡ some m
selected_by_id message_id ms m at =
    subst (λ i. select_one (is_message i) ms ≡ some m)
      (sym (eq-of-== m.message_id message_id (select_one_sound (is_message message_id) ms m at))) at

pub written_message_lem :
    (message_id : String) (reply : Message → MailboxResult) (ms : List Message) (m : Message)
    → select_one (is_message message_id) ms ≡ some m
    → written_message message_id reply ms ≡ ok (ms, reply m)
unfolding written_message
written_message_lem message_id reply ms m at = rw (at, written_message) refl

-- The last read of an operation leaves the table as the write left it.
pub written_message-inv :
    (message_id : String) (reply : Message → MailboxResult) (ms : List Message)
    (r : List Message × MailboxResult)
    → written_message message_id reply ms ≡ ok r
    → (m : Message) × (select_one (is_message message_id) ms ≡ some m) × (r ≡ (ms, reply m))
unfolding written_message
written_message-inv message_id reply ms r h = found (select_one (is_message message_id) ms) refl h
  where
    found :
        (o : Option Message)
        → select_one (is_message message_id) ms ≡ o
        → (elim o [ none ↦ raise assertion_error | some m ↦ ok (ms, reply m) ]) ≡ ok r
        → (m : Message) × (select_one (is_message message_id) ms ≡ some m) × (r ≡ (ms, reply m))
    found none e q = absurd (ground arith)
    found (some m) e q = (m, e, sym (ok-injective _ r q))

module _ (c : Consumer) (t : Moment) where
  -- A transaction that finds the database locked changes nothing.
  pub unless_locked-Effect :
      (body : MailTx MailboxResult) (ms : List Message) (r : List Message × MailboxResult)
      → unless_locked t body ms ≡ ok r
      → (body ms ≡ ok r → Effect c t.now ms r.0)
      → Effect c t.now ms r.0
  unless_locked-Effect body ms r h k = elim (Bool-cases t.is_locked) [
    | inl e ↦ rw (← ok-injective _ r (rw e at h)) unchanged
    | inr e ↦ k (rw e at h)
  ]

  enqueue_row-Effect :
      (e : MailEnvelope) (o : Option Message) (ms : List Message) (r : List Message × MailboxResult)
      → select_one (is_message e.message_id) ms ≡ o
      → enqueue_existing_or_new c t e o ms ≡ ok r
      → Effect c t.now ms r.0
  unfolding enqueue_existing_or_new
  enqueue_row-Effect e (some m) ms r q h = rw (← ok-injective _ r h) unchanged
  enqueue_row-Effect e none ms r q h = elim (Bool-cases (leb c.capacity (active_count ms))) [
    | inl full ↦ rw (← ok-injective _ r (rw full at h)) unchanged
    | inr room ↦
        let (_, _, same) = written_message-inv e.message_id _ _ r (rw room at h) in
        rw same (appended e q (leb-lt c.capacity (active_count ms) room))
  ]

  pub enqueue-Effect :
      (e : MailEnvelope) (ms : List Message) (r : List Message × MailboxResult)
      → enqueue c t e ms ≡ ok r
      → Effect c t.now ms r.0
  unfolding enqueue
  enqueue-Effect e ms r h = elim (Bool-cases c.is_closed) [
    | inl shut ↦ rw (← ok-injective _ r (rw shut at h)) unchanged
    | inr open_box ↦
        let (_, h₁) = require-eq-ok (e.source.project_id == c.project_id) _ _ (rw open_box at h) in
        let (_, h₂) = require-eq-ok (e.target.project_id == c.project_id) _ _ h₁ in
        unless_locked-Effect
          (λ rows. enqueue_existing_or_new c t e (select_one (is_message e.message_id) rows) rows)
          ms r h₂ (enqueue_row-Effect e _ ms r refl)
  ]

  claim_row-Effect :
      (token : String) (target : AgentAddress) (o : Option Message) (ms : List Message)
      (r : List Message × MailboxResult)
      → earliest (is_claimable target t.now) ms ≡ o
      → claim_row c t token o ms ≡ ok r
      → Effect c t.now ms r.0
  unfolding claim_row
  claim_row-Effect token target none ms r q h = rw (← ok-injective _ r h) unchanged
  claim_row-Effect token target (some m) ms r q h =
      let (x, at, same) = written_message-inv m.message_id _ _ r h in
      rw same (taken token target m q)

  pub claim-Effect :
      (token : String) (target : AgentAddress) (ms : List Message)
      (r : List Message × MailboxResult)
      → claim c t token target ms ≡ ok r
      → Effect c t.now ms r.0
  unfolding claim
  claim-Effect token target ms r h =
      let (_, h₁) = require-eq-ok (target.project_id == c.project_id) _ _ h in
      elim (Bool-cases c.is_closed) [
        | inl shut ↦ rw (← ok-injective _ r (rw shut at h₁)) unchanged
        | inr open_box ↦
            unless_locked-Effect
              (λ rows. claim_row c t token (earliest (is_claimable target t.now) rows) rows) ms r
              (rw open_box at h₁) (claim_row-Effect token target _ ms r refl)
      ]

  module _ (message_id token : String) (target : AgentAddress) where
    -- The holder's body runs on the row that the message id selects, if the lease matches.
    on_leased-Effect :
        (body : Message → MailTx MailboxResult) (ms : List Message)
        (r : List Message × MailboxResult)
        → on_leased c t message_id token target body ms ≡ ok r
        → ((m : Message)
            → select_one (is_message m.message_id) ms ≡ some m
            → owns_lease c token target t.now m ≡ true
            → body m ms ≡ ok r
            → Effect c t.now ms r.0)
        → Effect c t.now ms r.0
    unfolding with_lease
    on_leased-Effect body ms r h k =
        let (_, h₁) = require-eq-ok (target.project_id == c.project_id) _ _ h in
        unless_locked-Effect
          (λ rows. with_lease c t token target body (select_one (is_message message_id) rows) rows)
          ms r h₁ (row (select_one (is_message message_id) ms) refl)
      where
        row :
            (o : Option Message)
            → select_one (is_message message_id) ms ≡ o
            → with_lease c t token target body o ms ≡ ok r
            → Effect c t.now ms r.0
        row none at q = rw (← ok-injective _ r q) unchanged
        row (some m) at q = elim (Bool-cases (owns_lease c token target t.now m)) [
          | inl own ↦ k m (selected_by_id message_id ms m at) own (rw own at q)
          | inr lost ↦ rw (← ok-injective _ r (rw lost at q)) unchanged
        ]

    pub renew-Effect :
        (ms : List Message) (r : List Message × MailboxResult)
        → renew c t message_id token target ms ≡ ok r
        → Effect c t.now ms r.0
    unfolding renew
    renew-Effect ms r h = on_leased-Effect _ ms r h (λ m at own q.
        let (_, _, same) = written_message-inv message_id _ _ r q in
        rw same (written token target m (renewed_message c t.now) at own renewing))

    pub ack-Effect :
        (ms : List Message) (r : List Message × MailboxResult)
        → ack c t message_id token target ms ≡ ok r
        → Effect c t.now ms r.0
    unfolding ack
    ack-Effect ms r h = on_leased-Effect _ ms r h (λ m at own q.
        let (_, _, same) = written_message-inv message_id _ _ r q in
        rw same (written token target m (unleased delivered none t.now) at own acking))

    pub nack-Effect :
        (ms : List Message) (r : List Message × MailboxResult)
        → nack c t message_id token target ms ≡ ok r
        → Effect c t.now ms r.0
    unfolding nack
    nack-Effect ms r h = on_leased-Effect _ ms r h (λ m at own q.
        let (_, q₁) = require-eq-ok (is_float_power m.attempt) _ _ q in
        let (_, _, same) = written_message-inv message_id _ _ r q₁ in
        rw same (
          written token target m
            (unleased retry_wait (some (t.now + retry_delay c m.attempt)) t.now) at own
            (nacking (t.now + retry_delay c m.attempt))))

  pub close-Effect : (ms : List Message) → Effect c t.now ms (close c t ms).0.1
  unfolding close
  close-Effect ms = elim (Bool-cases c.is_closed) [
    | inl shut ↦ rw shut unchanged
    | inr open_box ↦ elim (Bool-cases t.is_locked) [
      | inl locked ↦ rw (open_box, locked) unchanged
      | inr free ↦ rw (open_box, free) released
    ]
  ]
