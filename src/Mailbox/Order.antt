-- ===== src/Mailbox/Order.antt =====
-- The order of delivery: `claim` of agent/runtime/persistent_mailbox.py.
use bridle.Mailbox.Effects.{written_message_lem}
use bridle.Mailbox.Selected.{earliest-IsSelected}
use bridle.Mailbox.Delivery.{
  claim, Consumer, Moment, is_claimable, claimed_message, leased_result, claim_row,
}
use bridle.Mailbox.Table.{
  claimed, empty, earliest, Message, AgentAddress, MailboxResult, is_message, bare_result,
}
use bridle.Errors.{ok}
use bridle.Prelude.{
  ◌∙◌, List, [], ◌∷◌, none, some, true, false, inl, inr, refl, Bool, String, ◌≡◌, ◌≤◌, All,
  Option-cases, arith, select_one, update_where, select_one-update_where, ◌+◌, eq_self, rowcount,
}

-- The message can be claimed, and no message that can be claimed has a lower number.
abbrev pub IsFirst : (Message → Bool) → List Message → Message → Type 0
IsFirst p ms m = (p m ≡ true) × All (λ x. p x ≡ true → m.sequence_no ≤ x.sequence_no) ms

pub earliest-none :
    (p : Message → Bool) (ms : List Message) → earliest p ms ≡ none → All (λ x. p x ≡ false) ms
unfolding earliest
earliest-none p [] h = tt
earliest-none p (x ∷ ms) h = (ground arith, earliest-none p ms (ground arith))

pub none-earliest :
    (p : Message → Bool) (ms : List Message) → All (λ x. p x ≡ false) ms → earliest p ms ≡ none
unfolding earliest
none-earliest p [] h = refl
none-earliest p (x ∷ ms) h = ground (arith, h.0, none-earliest p ms h.1)

All-lower :
    (p : Message → Bool) (m n : Message) (ms : List Message)
    → n.sequence_no ≤ m.sequence_no
    → All (λ x. p x ≡ true → m.sequence_no ≤ x.sequence_no) ms
    → All (λ x. p x ≡ true → n.sequence_no ≤ x.sequence_no) ms
All-lower p m n [] h a = tt
All-lower p m n (x ∷ ms) h a = (λ e. omega (arith, a.0 e, h), All-lower p m n ms h a.1)

All-idle :
    (p : Message → Bool) (n : Message) (ms : List Message)
    → All (λ x. p x ≡ false) ms
    → All (λ x. p x ≡ true → n.sequence_no ≤ x.sequence_no) ms
All-idle p n [] a = tt
All-idle p n (x ∷ ms) a = (λ e. absurd (ground arith), All-idle p n ms a.1)

earliest-least :
    (p : Message → Bool) (ms : List Message) (m : Message)
    → earliest p ms ≡ some m
    → All (λ x. p x ≡ true → m.sequence_no ≤ x.sequence_no) ms
unfolding earliest
earliest-least p [] m h = tt
earliest-least p (x ∷ ms) m h = elim (Option-cases (earliest p ms)) [
  | inl e ↦ (λ q. ground arith, All-idle p m ms (earliest-none p ms e))
  | inr (n, e) ↦ (λ q. ground arith, All-lower p n m ms (ground arith) (earliest-least p ms n e))
]

module _ (c : Consumer) (t : Moment) (token : String) (target : AgentAddress) (ms : List Message)
    (open_box : c.is_closed ≡ false) (free : t.is_locked ≡ false)
    (own : target.project_id ≡ c.project_id) where
  pub open_claim :
      claim c t token target ms ≡ claim_row c t token (earliest (is_claimable target t.now) ms) ms
  unfolding claim
  open_claim = rw (own, open_box, free) (rw (eq_self {A = String} c.project_id) refl)

  claimed_row :
      (m : Message)
      → select_one (is_message m.message_id) ms ≡ some m
      → select_one
          (is_message m.message_id)
          (update_where (is_message m.message_id) (claimed_message c token t.now) ms)
        ≡ some (claimed_message c token t.now m)
  claimed_row m at =
      rw
        (select_one-update_where (is_message m.message_id) (is_message m.message_id)
          (claimed_message c token t.now) ms (λ r _. refl))
        (rw at (rw (eq_self {A = String} m.message_id) refl))

  -- What a claim answers, and what it leaves.
  pub data ClaimOutcome : List Message × MailboxResult → Type 0 where
    nothing :
        All (λ x. is_claimable target t.now x ≡ false) ms → ClaimOutcome (ms, bare_result empty)
    first :
        (m : Message) (ms' : List Message)
        → IsFirst (is_claimable target t.now) ms m
        → select_one (is_message m.message_id) ms' ≡ some (claimed_message c token t.now m)
        → ClaimOutcome
            (ms', leased_result claimed token (t.now + c.lease) (claimed_message c token t.now m))

  -- A claim of an open consumer in its own project, on an unlocked table with unique ids, returns:
  -- it answers `empty` if no message of the target can be claimed, and else leases to the consumer
  -- the one with the lowest number among those that can.
  pub claim-IsFirst :
      ((message_id : String) → rowcount (is_message message_id) ms ≤ 1)
      → (r : List Message × MailboxResult) × (claim c t token target ms ≡ ok r) × ClaimOutcome r
  unfolding claim_row
  claim-IsFirst keyed = elim (Option-cases (earliest (is_claimable target t.now) ms)) [
    | inl e ↦ (
      (ms, bare_result empty),
      open_claim ∙ rw e refl,
      nothing (earliest-none (is_claimable target t.now) ms e),
    )
    | inr (m, e) ↦
        let (at, good) = earliest-IsSelected (is_claimable target t.now) ms m keyed e in
        (
          (
            update_where (is_message m.message_id) (claimed_message c token t.now) ms,
            leased_result claimed token (t.now + c.lease) (claimed_message c token t.now m),
          ),
          open_claim
              ∙ rw e (
                  written_message_lem m.message_id (leased_result claimed token (t.now + c.lease))
                    (update_where (is_message m.message_id) (claimed_message c token t.now) ms)
                    (claimed_message c token t.now m) (claimed_row m at)),
          first m _ (good, earliest-least (is_claimable target t.now) ms m e) (claimed_row m at),
        )
  ]
