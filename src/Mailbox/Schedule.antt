-- ===== src/Mailbox/Schedule.antt =====
-- The time for which `receive` of agent/runtime/persistent_mailbox.py sleeps.
use bridle.Mailbox.Sound.{IsSoundMessage}
use bridle.Mailbox.Waiting.{next_due, due_at, next_due_delay, earlier_time}
use bridle.Mailbox.Delivery.{claim, is_claimable, is_due, Consumer, Moment, claim_row}
use bridle.Mailbox.Table.{
  empty, AgentAddress, earliest, Message, address_eq, is_message, bare_result, row_result,
  MailboxResult,
}
use bridle.Mailbox.Order.{
  claim-IsFirst, ClaimOutcome, nothing, first, earliest-none, none-earliest, open_claim,
}
use mathlib.Core.Option
use mathlib.Core.Option.{some-injective}
use bridle.Errors.{ok, ok-injective}
use bridle.Prelude.{
  ◌∙◌, List, [], ◌∷◌, none, some, false, Option, refl, ℕ, String, All, ◌≡◌, ◌↔◌, if◌then◌else◌,
  arith, ◌==◌, ◌||◌, ◌+◌, rowcount, ◌≤◌, sym, ap,
}

-- Of a row that cannot be claimed now, the time it waits for is the one from which it can be.
waits_for :
    (target : AgentAddress) (now later : ℕ) (m : Message)
    → IsSoundMessage m
    → is_claimable target now m ≡ false
    → is_claimable target later m
      ≡ is_due later (if m.target_address == target then due_at m else none)
waits_for target now later m sound idle = ground arith

is_due-earlier_time :
    (later : ℕ) (a b : Option ℕ)
    → is_due later (earlier_time a b) ≡ (is_due later a || is_due later b)
is_due-earlier_time later none b = refl
is_due-earlier_time later (some a) none = ground arith
is_due-earlier_time later (some a) (some b) = ground arith

-- So the earliest of these times is the one from which there is a message to claim.
some_due :
    (target : AgentAddress) (now later : ℕ) (ms : List Message)
    → All IsSoundMessage ms
    → All (λ m. is_claimable target now m ≡ false) ms
    → (earliest (is_claimable target later) ms ≡ none) ↔ (is_due later (next_due target ms) ≡ false)
unfolding earliest next_due
some_due target now later [] sound idle = ground arith
some_due target now later (m ∷ ms) sound idle = ground (
  arith,
  waits_for target now later m sound.0 idle.0,
  some_due target now later ms sound.1 idle.1,
  is_due-earlier_time later (if m.target_address == target then due_at m else none)
      (next_due target ms),
)

-- No time that a row waits for has come, so the delay is not cut to zero.
delay-exact :
    (target : AgentAddress) (now later : ℕ) (ms : List Message)
    → is_due now (next_due target ms) ≡ false
    → is_due later (Option.map (λ d. now + d) (next_due_delay target now ms))
      ≡ is_due later (next_due target ms)
unfolding next_due_delay
delay-exact target now later ms h = ground arith

module _ (c : Consumer) (t : Moment) (token : String) (target : AgentAddress) (ms : List Message)
    (open_box : c.is_closed ≡ false) (free : t.is_locked ≡ false)
    (own : target.project_id ≡ c.project_id) where
  idle_outcome :
      (r : List Message × MailboxResult)
      → ClaimOutcome c t token target ms open_box free own r
      → r.1.status ≡ empty
      → earliest (is_claimable target t.now) ms ≡ none
  unfolding row_result
  idle_outcome _ (nothing idle) e = none-earliest (is_claimable target t.now) ms idle
  idle_outcome _ (first m ms' is_first row) e = absurd (ground arith)

  -- A claim answers `empty` exactly when no row can be claimed.
  pub claim-empty :
      (keyed : (message_id : String) → rowcount (is_message message_id) ms ≤ 1)
      → (claim c t token target ms ≡ ok (ms, bare_result empty))
        ↔ (earliest (is_claimable target t.now) ms ≡ none)
  unfolding claim_row
  claim-empty keyed = (
    λ h.
        let (r, h', outcome) = claim-IsFirst c t token target ms open_box free own keyed in
        idle_outcome r outcome
          (ap (λ x. x.1.status) (ok-injective r (ms, bare_result empty) (sym h' ∙ h))),
    λ e. open_claim c t token target ms open_box free own ∙ rw e refl,
  )

module _ (c : Consumer) (target : AgentAddress) (ms : List Message) (open_box : c.is_closed ≡ false)
    (own : target.project_id ≡ c.project_id) where
  -- On a sound table with unique ids, while it does not change and is not locked, an open consumer
  -- that found nothing to claim finds something from the moment that `_next_due_delay` names on,
  -- and not before; without such a moment it finds nothing.
  pub next_due_delay-exact :
      (t t' : Moment) (token token' : String)
      → t.is_locked ≡ false
      → t'.is_locked ≡ false
      → ((message_id : String) → rowcount (is_message message_id) ms ≤ 1)
      → All IsSoundMessage ms
      → claim c t token target ms ≡ ok (ms, bare_result empty)
      → (claim c t' token' target ms ≡ ok (ms, bare_result empty))
        ↔ (is_due t'.now (Option.map (λ d. t.now + d) (next_due_delay target t.now ms)) ≡ false)
  next_due_delay-exact t t' token token' free free' keyed sound h =
      let none_now = (claim-empty c t token target ms open_box free own keyed).0 h in
      let idle = earliest-none (is_claimable target t.now) ms none_now in
      let empty_then = claim-empty c t' token' target ms open_box free' own keyed in
      let due_then = some_due target t.now t'.now ms sound idle in
      let exact =
        delay-exact target t.now t'.now ms
          ((some_due target t.now t.now ms sound idle).0 none_now) in
      (λ k. exact ∙ due_then.0 (empty_then.0 k), λ k. empty_then.1 (due_then.1 (sym exact ∙ k)))
