-- ===== src/Mailbox/History/Durable.antt =====
-- What becomes of a message in the mail table of agent/runtime/persistent_mailbox.py.
use bridle.Mailbox.Selected.{earliest-IsSelected}
use bridle.Mailbox.Leases.{owns_lease, is_leased_by, unleased}
use bridle.Mailbox.History.Valid.{Calls-IsMailTable, Call-Effect}
use bridle.Mailbox.Sound.{IsMailTable, write-keys}
use bridle.Mailbox.Delivery.{Consumer, is_claimable, claimed_message, pending_message}
use bridle.Mailbox.Table.{
  Message, MailStatus, AgentAddress, is_message, delivered, last_sequence, pending, leased,
}
use bridle.Mailbox.History.{Calls, here, next}
use bridle.Mailbox.Effects.{
  renewing, acking, nacking, unchanged, appended, taken, written, released, HolderWrite, Effect,
  selected_by_id,
}
use mathlib.Core.Option.{some-injective}
use mathlib.Core.Path.{subst}
use bridle.Prelude.{
  ◌∙◌, List, none, some, true, Option, inl, inr, refl, Bool, ℕ, String, select_one, arith, rowcount,
  ◌≡◌, ◌≤◌, update_where, sym, eq-of-==, select_one-append, if◌then◌else◌, select_one-update_where,
  Bool-cases, string_eq, ◌+◌,
}

-- A later state of the same message: its content and place are the same, its attempts have not
-- decreased, and once delivered it stays as it is.
pub record IsLater (m m' : Message) : Type 0 where
  pub same_id : m'.message_id ≡ m.message_id
  pub same_source : m'.source_address ≡ m.source_address
  pub same_target : m'.target_address ≡ m.target_address
  pub same_type : m'.message_type ≡ m.message_type
  pub same_payload : m'.payload_json ≡ m.payload_json
  pub same_number : m'.sequence_no ≡ m.sequence_no
  pub counted : m.attempt ≤ m'.attempt
  pub final : m.status ≡ delivered → m' ≡ m

abbrev pub KeepsMail : List Message → List Message → Type 0
KeepsMail ms ms' =
    (message_id : String) (m : Message)
    → select_one (is_message message_id) ms ≡ some m
    → (m' : Message) × (select_one (is_message message_id) ms' ≡ some m') × IsLater m m'

same-IsLater : (m : Message) → IsLater m m
same-IsLater m = record {
  same_id = refl;
  same_source = refl;
  same_target = refl;
  same_type = refl;
  same_payload = refl;
  same_number = refl;
  counted = omega arith;
  final = λ _. refl;
}

trans-IsLater : (a b d : Message) → IsLater a b → IsLater b d → IsLater a d
trans-IsLater a b d p q = record {
  same_id = q.same_id ∙ p.same_id;
  same_source = q.same_source ∙ p.same_source;
  same_target = q.same_target ∙ p.same_target;
  same_type = q.same_type ∙ p.same_type;
  same_payload = q.same_payload ∙ p.same_payload;
  same_number = q.same_number ∙ p.same_number;
  counted = omega (arith, p.counted, q.counted);
  final =
      λ e. let same = p.final e in q.final (subst (λ x. x.status ≡ delivered) (sym same) e) ∙ same;
}

-- An update whose test implies that a row is not delivered, and that makes a later row of it.
update-KeepsMail :
    (p : Message → Bool) (f : Message → Message) (ms : List Message)
    → ((r : Message) → (f r).message_id ≡ r.message_id)
    → ((message_id : String) (r : Message)
        → select_one (is_message message_id) ms ≡ some r
        → p r ≡ true
        → IsLater r (f r))
    → KeepsMail ms (update_where p f ms)
update-KeepsMail p f ms keys later id m at = (
  if p m then f m else m,
  rw (select_one-update_where (is_message id) p f ms (λ r h. rw (keys r) refl)) (rw at refl),
  elim (Bool-cases (p m)) [ inl e ↦ rw e (later id m at e) | inr e ↦ rw e (same-IsLater m) ],
)

changed-IsLater :
    (c : Consumer) (now : ℕ) (status : MailStatus) (at : Option ℕ) (m : Message)
    → m.status ≡ leased
    → IsLater m (unleased status at now m)
changed-IsLater c now status at m h = ground arith

claimed-IsLater :
    (c : Consumer) (token : String) (target : AgentAddress) (now : ℕ) (m : Message)
    → is_claimable target now m ≡ true
    → IsLater m (claimed_message c token now m)
claimed-IsLater c token target now m h = ground arith

written-IsLater :
    (c : Consumer) (token : String) (target : AgentAddress) (now : ℕ) (f : Message → Message)
    (m : Message)
    → HolderWrite c now f
    → owns_lease c token target now m ≡ true
    → IsLater m (f m)
written-IsLater c token target now _ m renewing own = ground arith
written-IsLater c token target now _ m acking own = ground arith
written-IsLater c token target now _ m (nacking at) own = ground arith

module _ (c : Consumer) (now : ℕ) where
  -- The row that an update by id writes is the one row with that id.
  own_row :
      (ms : List Message) (m : Message) (f : Message → Message)
      → select_one (is_message m.message_id) ms ≡ some m
      → IsLater m (f m)
      → (message_id : String) (r : Message) → select_one (is_message message_id) ms ≡ some r
      → is_message m.message_id r ≡ true
      → IsLater r (f r)
  own_row ms m f at later id r sel own =
      subst (λ x. IsLater x (f x))
        (some-injective m r (
          sym at
          ∙ subst (λ i. select_one (is_message i) ms ≡ some r)
              (eq-of-== r.message_id m.message_id own) (selected_by_id id ms r sel)))
        later

  pub Effect-KeepsMail :
      (ms ms' : List Message)
      → ((message_id : String) → rowcount (is_message message_id) ms ≤ 1)
      → Effect c now ms ms'
      → KeepsMail ms ms'
  Effect-KeepsMail ms _ keyed unchanged = λ id m at. (m, at, same-IsLater m)
  Effect-KeepsMail ms _ keyed (appended e fresh room) = λ id m at. (
    m,
    rw (select_one-append (is_message id) ms (pending_message e (last_sequence ms + 1) now))
        (rw at refl),
    same-IsLater m,
  )
  Effect-KeepsMail ms _ keyed (taken token target m first) =
      let (at, good) = earliest-IsSelected (is_claimable target now) ms m keyed first in
      update-KeepsMail (is_message m.message_id) (claimed_message c token now) ms (λ r. refl)
        (own_row ms m (claimed_message c token now) at (claimed-IsLater c token target now m good))
  Effect-KeepsMail ms _ keyed (written token target m f at own w) =
      update-KeepsMail (is_message m.message_id) f ms (λ r. (write-keys c now f r w).0)
        (own_row ms m f at (written-IsLater c token target now f m w own))
  Effect-KeepsMail ms _ keyed released =
      update-KeepsMail (is_leased_by c.consumer_id) (unleased pending none now) ms (λ r. refl)
        (λ id r sel own. changed-IsLater c now pending none r (ground arith))

-- Whatever calls are made on a valid mail table, a message in it stays there with the same content
-- and number, its attempts do not decrease, and from its delivery on its row stays the same.
pub Calls-KeepsMail :
    {capacity : ℕ} {ms ms' : List Message}
    → Calls capacity ms ms'
    → IsMailTable capacity ms
    → KeepsMail ms ms'
Calls-KeepsMail here v id m at = (m, at, same-IsLater m)
Calls-KeepsMail {capacity} {ms} (next c t {ms'} {ms''} same calls call) v id m at =
    let (m', at', later) = Calls-KeepsMail calls v id m at in
    let (m'', at'', later') =
      Effect-KeepsMail c t.now ms' ms'' (Calls-IsMailTable calls v).keyed
        (Call-Effect c t ms' ms'' call) id m' at' in
    (m'', at'', trans-IsLater m m' m'' later later')
