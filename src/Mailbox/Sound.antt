-- ===== src/Mailbox/Sound.antt =====
-- The invariant of the mail table of agent/runtime/persistent_mailbox.py, and the effects of the
-- operations on it.
use bridle.Mailbox.Selected.{earliest-IsSelected}
use bridle.Mailbox.Effects.{HolderWrite, nacking, Effect}
use bridle.Mailbox.Leases.{unleased, owns_lease, is_leased_by}
use bridle.Mailbox.Delivery.{Consumer, pending_message, claimed_message, is_claimable}
use bridle.Mailbox.Table.{
  MailEnvelope, Message, last_sequence, AgentAddress, is_message, pending, active_count, leased,
  retry_wait, is_active, mail_status_eq,
}
use bridle.Mailbox.Effects.{
  renewing, acking, nacking, unchanged, appended, taken, written, released,
}
use mathlib.Core.Option.{some-injective}
use mathlib.Core.Path.{subst}
use bridle.Prelude.{
  ◌∙◌, List, [], ◌∷◌, ◌++◌, none, some, true, refl, ℕ, String, ◌≡◌, rowcount, ◌<◌, arith, ◌≤◌, ◌==◌,
  nat_eq, All, ◌≢◌, ◌↔◌, select_one, update_where, rowcount-update_where-le, All-update_one, sym,
  rowcount-update_one-le, ◌+◌, All-update_where, rowcount-append, rowcount-select_one-none,
  All-append, rowcount-update_counted-le,
}

-- A leased row has an owner, a token and a deadline, and no other row has any of them; exactly a
-- row that waits has a time for its retry; and a row that is leased, waits or was delivered has
-- been tried.
pub record IsSoundMessage (m : Message) : Type 0 where
  pub held :
      m.status ≡ leased
      → (m.lease_owner ≢ none) × (m.lease_token ≢ none) × (m.lease_expires_at ≢ none)
  pub free :
      m.status ≢ leased
      → (m.lease_owner ≡ none) × (m.lease_token ≡ none) × (m.lease_expires_at ≡ none)
  pub waiting : (m.status ≡ retry_wait) ↔ (m.next_retry_at ≢ none)
  pub tried : m.status ≢ pending → 1 ≤ m.attempt

-- The ids and the sequence numbers are keys, the rows are sound, and at most `capacity` messages
-- are not delivered.
pub record IsMailTable (capacity : ℕ) (ms : List Message) : Type 0 where
  pub keyed : (message_id : String) → rowcount (is_message message_id) ms ≤ 1
  pub numbered : (n : ℕ) → rowcount (λ m. m.sequence_no == n) ms ≤ 1
  pub sound : All IsSoundMessage ms
  pub bounded : active_count ms ≤ capacity

pending-IsSound : (e : MailEnvelope) (n now : ℕ) → IsSoundMessage (pending_message e n now)
pending-IsSound e n now = ground arith

claimed-IsSound :
    (c : Consumer) (token : String) (now : ℕ) (m : Message)
    → IsSoundMessage (claimed_message c token now m)
claimed-IsSound c token now m = ground arith

released-IsSound :
    (now : ℕ) (m : Message) → IsSoundMessage m → IsSoundMessage (unleased pending none now m)
released-IsSound now m h = ground arith

write-IsSound :
    (c : Consumer) (token : String) (target : AgentAddress) (now : ℕ) (f : Message → Message)
    (m : Message)
    → HolderWrite c now f
    → owns_lease c token target now m ≡ true
    → IsSoundMessage m
    → IsSoundMessage (f m)
write-IsSound c token target now _ m renewing own h = ground arith
write-IsSound c token target now _ m acking own h = ground arith
write-IsSound c token target now _ m (nacking at) own h = ground arith

-- No row has a sequence number above the last one.
last_sequence-lt :
    (n : ℕ) (ms : List Message) → last_sequence ms < n → rowcount (λ m. m.sequence_no == n) ms ≡ 0
unfolding last_sequence rowcount
last_sequence-lt n [] h = refl
last_sequence-lt n (m ∷ ms) h = ground (arith, last_sequence-lt n ms)

module _ (capacity : ℕ) (f : Message → Message) (ms : List Message) (m : Message) where
  -- A write of the selected row that keeps its keys.
  rewrite-IsMailTable :
      IsMailTable capacity ms
      → select_one (is_message m.message_id) ms ≡ some m
      → ((r : Message) → (f r).message_id ≡ r.message_id)
      → ((r : Message) → (f r).sequence_no ≡ r.sequence_no)
      → is_active m ≡ true
      → (IsSoundMessage m → IsSoundMessage (f m))
      → IsMailTable capacity (update_where (is_message m.message_id) f ms)
  rewrite-IsMailTable t at same_id same_number active keep = record {
    keyed = λ id. omega (
      arith,
      t.keyed id,
      rowcount-update_where-le (is_message id) (is_message m.message_id) f ms
          (λ r h. rw (← same_id r) h),
    );
    numbered = λ n. omega (
      arith,
      t.numbered n,
      rowcount-update_where-le (λ x. x.sequence_no == n) (is_message m.message_id) f ms
          (λ r h. rw (← same_number r) h),
    );
    sound =
        All-update_one IsSoundMessage (is_message m.message_id) (is_message m.message_id) f
          (λ r h. h) ms (t.keyed m.message_id)
          (λ r sel own sound.
            subst (λ x. IsSoundMessage (f x)) (some-injective m r (sym at ∙ sel))
              (keep (subst IsSoundMessage (some-injective r m (sym sel ∙ at)) sound)))
          t.sound;
    bounded = omega (
      arith,
      t.bounded,
      rowcount-update_one-le (is_message m.message_id) f is_active ms m (t.keyed m.message_id) at
          active,
    );
  }

module _ (c : Consumer) (now : ℕ) where
  appended-IsMailTable :
      (e : MailEnvelope) (ms : List Message)
      → select_one (is_message e.message_id) ms ≡ none
      → active_count ms < c.capacity
      → IsMailTable c.capacity ms
      → IsMailTable c.capacity (ms ++ pending_message e (last_sequence ms + 1) now ∷ [])
  unfolding nat_eq mail_status_eq
  appended-IsMailTable e ms fresh room t = record {
    keyed = λ id. ground (
      arith,
      t.keyed id,
      rowcount-append (is_message id) ms (pending_message e (last_sequence ms + 1) now),
      rowcount-select_one-none (is_message e.message_id) ms fresh,
    );
    numbered = λ n. ground (
      arith,
      t.numbered n,
      rowcount-append (λ m. m.sequence_no == n) ms (pending_message e (last_sequence ms + 1) now),
      last_sequence-lt n ms,
    );
    sound = All-append IsSoundMessage ms _ t.sound (pending-IsSound e (last_sequence ms + 1) now);
    bounded =
        ground (
          arith,
          room,
          rowcount-append is_active ms (pending_message e (last_sequence ms + 1) now),
        );
  }

  released-IsMailTable :
      (capacity : ℕ) (ms : List Message)
      → IsMailTable capacity ms
      → IsMailTable capacity
          (update_where (is_leased_by c.consumer_id) (unleased pending none now) ms)
  released-IsMailTable capacity ms t = record {
    keyed = λ id. omega (
      arith,
      t.keyed id,
      rowcount-update_where-le (is_message id) (is_leased_by c.consumer_id)
          (unleased pending none now) ms (λ r h. h),
    );
    numbered = λ n. omega (
      arith,
      t.numbered n,
      rowcount-update_where-le (λ x. x.sequence_no == n) (is_leased_by c.consumer_id)
          (unleased pending none now) ms (λ r h. h),
    );
    sound =
        All-update_where IsSoundMessage (is_leased_by c.consumer_id) (unleased pending none now) ms
          (λ r own h. released-IsSound now r h) t.sound;
    bounded = omega (
      arith,
      t.bounded,
      rowcount-update_counted-le (is_leased_by c.consumer_id) (unleased pending none now) is_active
          ms (λ r h. ground arith),
    );
  }

  claimable-is_active :
      (target : AgentAddress) (m : Message) → is_claimable target now m ≡ true → is_active m ≡ true
  claimable-is_active target m h = ground arith

  owned-is_active :
      (token : String) (target : AgentAddress) (m : Message)
      → owns_lease c token target now m ≡ true
      → is_active m ≡ true
  owned-is_active token target m h = ground arith

  pub write-keys :
      (f : Message → Message) (m : Message)
      → HolderWrite c now f
      → ((f m).message_id ≡ m.message_id) × ((f m).sequence_no ≡ m.sequence_no)
  write-keys _ m renewing = (refl, refl)
  write-keys _ m acking = (refl, refl)
  write-keys _ m (nacking at) = (refl, refl)

  pub Effect-IsMailTable :
      (ms ms' : List Message)
      → Effect c now ms ms'
      → IsMailTable c.capacity ms
      → IsMailTable c.capacity ms'
  Effect-IsMailTable ms _ unchanged t = t
  Effect-IsMailTable ms _ (appended e fresh room) t = appended-IsMailTable e ms fresh room t
  Effect-IsMailTable ms _ (taken token target m first) t =
      let (at, good) = earliest-IsSelected (is_claimable target now) ms m t.keyed first in
      rewrite-IsMailTable c.capacity (claimed_message c token now) ms m t at (λ r. refl) (λ r. refl)
        (claimable-is_active target m good) (λ _. claimed-IsSound c token now m)
  Effect-IsMailTable ms _ (written token target m f at own w) t =
      rewrite-IsMailTable c.capacity f ms m t at (λ r. (write-keys f r w).0)
        (λ r. (write-keys f r w).1) (owned-is_active token target m own)
        (write-IsSound c token target now f m w own)
  Effect-IsMailTable ms _ released t = released-IsMailTable c.capacity ms t
