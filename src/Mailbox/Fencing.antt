-- ===== src/Mailbox/Fencing.antt =====
-- The calls that need a lease, `renew`, `ack` and `nack` of agent/runtime/persistent_mailbox.py,
-- when the caller does not hold it.
use bridle.Mailbox.Order.{claim-IsFirst, ClaimOutcome, nothing, first}
use bridle.Mailbox.Delivery.{claim, Consumer, Moment, MailTx, claimed_message}
use bridle.Mailbox.Leases.{
  renew, with_lease, ack, lost_lease_result, on_leased, nack, owns_lease, is_running_at,
}
use bridle.Mailbox.Table.{
  claimed, lost_lease, AgentAddress, Message, MailboxResult, is_message, row_result, leased,
  address_eq,
}
use mathlib.Core.Option.{some-injective}
use mathlib.Core.Path.{subst}
use bridle.Errors.{ok, ok-injective}
use bridle.Prelude.{
  none, ==-of_ne, ◌∙◌, List, some, false, refl, String, ◌≡◌, select_one, rowcount, ◌≤◌, eq_self,
  ◌≢◌, arith, sym, ℕ, option_eq, string_eq,
}

-- Why a caller does not hold the lease of a message.
pub data IsForeign (c : Consumer) (token : String) (target : AgentAddress) (now : ℕ) (m : Message)
    : Type 0 where
  not_leased : m.status ≢ leased → IsForeign c token target now m
  other_owner : m.lease_owner ≢ some c.consumer_id → IsForeign c token target now m
  other_token : m.lease_token ≢ some token → IsForeign c token target now m
  other_target : m.target_address ≢ target → IsForeign c token target now m
  no_deadline : m.lease_expires_at ≡ none → IsForeign c token target now m
  expired :
      (deadline : ℕ)
      → m.lease_expires_at ≡ some deadline
      → deadline ≤ now
      → IsForeign c token target now m

IsForeign-unowned :
    (c : Consumer) (token : String) (target : AgentAddress) (now : ℕ) (m : Message)
    → IsForeign c token target now m
    → owns_lease c token target now m ≡ false
IsForeign-unowned c token target now m (not_leased n) = rw (==-of_ne m.status leased n) refl
IsForeign-unowned c token target now m (other_owner n) =
    let q = ==-of_ne m.lease_owner (some c.consumer_id) n in ground arith
IsForeign-unowned c token target now m (other_token n) =
    let q = ==-of_ne m.lease_token (some token) n in ground arith
IsForeign-unowned c token target now m (other_target n) =
    let q = ==-of_ne m.target_address target n in ground arith
IsForeign-unowned c token target now m (no_deadline e) =
    let q : is_running_at now m.lease_expires_at ≡ false = rw e refl in ground arith
IsForeign-unowned c token target now m (expired deadline e late) =
    let q : is_running_at now m.lease_expires_at ≡ false = rw e (ground arith) in ground arith

module _ (c : Consumer) (t : Moment) (message_id token : String) (target : AgentAddress)
    (ms : List Message) (m : Message) (free : t.is_locked ≡ false)
    (own : target.project_id ≡ c.project_id)
    (at : select_one (is_message message_id) ms ≡ some m) where
  pub open_lease :
      (body : Message → MailTx MailboxResult)
      → on_leased c t message_id token target body ms ≡ with_lease c t token target body (some m) ms
  open_lease body = rw (own, free) (rw (eq_self {A = String} c.project_id) (rw at refl))

  not_owned :
      (body : Message → MailTx MailboxResult)
      → owns_lease c token target t.now m ≡ false
      → on_leased c t message_id token target body ms ≡ ok (ms, row_result lost_lease m)
  unfolding with_lease lost_lease_result
  not_owned body lost = open_lease body ∙ rw lost refl

  unowned_refused :
      owns_lease c token target t.now m ≡ false
      → (renew c t message_id token target ms ≡ ok (ms, row_result lost_lease m))
        × (ack c t message_id token target ms ≡ ok (ms, row_result lost_lease m))
        × (nack c t message_id token target ms ≡ ok (ms, row_result lost_lease m))
  unfolding renew ack nack
  unowned_refused lost = (not_owned _ lost, not_owned _ lost, not_owned _ lost)

  -- On an unlocked table a call for a message that is not leased, that another consumer holds,
  -- that is held with another token or for another target of the project, or whose lease has no
  -- deadline or one that has passed, is answered by `lost_lease` and changes nothing, for each of
  -- `renew`, `ack` and `nack`.
  pub foreign_refused :
      IsForeign c token target t.now m
      → (renew c t message_id token target ms ≡ ok (ms, row_result lost_lease m))
        × (ack c t message_id token target ms ≡ ok (ms, row_result lost_lease m))
        × (nack c t message_id token target ms ≡ ok (ms, row_result lost_lease m))
  foreign_refused foreign = unowned_refused (IsForeign-unowned c token target t.now m foreign)

-- `renew`, `ack` and `nack` answer `lost_lease` and leave the table as it is.
abbrev pub IsRefused : Consumer → Moment → String → String → AgentAddress → List Message → Type 0
IsRefused c t message_id token target ms =
    (m : Message) × (renew c t message_id token target ms ≡ ok (ms, row_result lost_lease m))
    × (ack c t message_id token target ms ≡ ok (ms, row_result lost_lease m))
    × (nack c t message_id token target ms ≡ ok (ms, row_result lost_lease m))

module _ (c : Consumer) (t : Moment) (token : String) (target : AgentAddress) (ms : List Message)
    (open_box : c.is_closed ≡ false) (free : t.is_locked ≡ false)
    (own : target.project_id ≡ c.project_id)
    (keyed : (message_id : String) → rowcount (is_message message_id) ms ≤ 1) where
  ClaimOutcome-IsRefused :
      (c' : Consumer) (t' : Moment) (token' message_id : String) (r : List Message × MailboxResult)
      → t'.is_locked ≡ false
      → target.project_id ≡ c'.project_id
      → token ≢ token'
      → r.1.status ≡ claimed
      → r.1.message_id ≡ some message_id
      → ClaimOutcome c t token target ms open_box free own r
      → IsRefused c' t' message_id token' target r.0
  unfolding row_result
  ClaimOutcome-IsRefused c' t' token' id _ free' own' other taken at (nothing idle) =
      absurd (ground arith)
  ClaimOutcome-IsRefused c' t' token' id _ free' own' other taken at (first m ms' is_first row) =
      let (a, b, d) =
        unowned_refused c' t' id token' target ms' (claimed_message c token t.now m) free' own'
          (subst (λ i. select_one (is_message i) ms' ≡ some (claimed_message c token t.now m))
            (some-injective m.message_id id at) row)
          (ground arith) in
      (claimed_message c token t.now m, a, b, d)

  -- A message that an open consumer has claimed, on an unlocked table with unique ids, cannot be
  -- extended, delivered or delayed by another token than that of this claim, by whatever consumer
  -- of the project and at whatever time: on the table that the claim left, unless it is locked,
  -- each of the three calls answers `lost_lease` and changes nothing.
  pub superseded-IsRefused :
      (r : List Message × MailboxResult) (message_id : String)
      → claim c t token target ms ≡ ok r
      → r.1.status ≡ claimed
      → r.1.message_id ≡ some message_id
      → (c' : Consumer) (t' : Moment) (token' : String) → t'.is_locked ≡ false
      → target.project_id ≡ c'.project_id
      → token ≢ token'
      → IsRefused c' t' message_id token' target r.0
  superseded-IsRefused r id h taken at c' t' token' free' own' other =
      let (r', h', outcome) = claim-IsFirst c t token target ms open_box free own keyed in
      let same : r' ≡ r = ok-injective r' r (sym h' ∙ h) in
      ClaimOutcome-IsRefused c' t' token' id r free' own' other taken at
        (subst (ClaimOutcome c t token target ms open_box free own) same outcome)
