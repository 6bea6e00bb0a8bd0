-- ===== src/Mailbox/Idle.antt =====
-- The check of idleness of agent/runtime/persistent_mailbox.py.
use bridle.Mailbox.Order.{none-earliest}
use bridle.Mailbox.Schedule.{claim-empty}
use bridle.Mailbox.Waiting.{has_pending, is_empty_at_version}
use bridle.Mailbox.Delivery.{claim, Consumer, Moment, is_claimable}
use bridle.Mailbox.Table.{
  empty, AgentAddress, Message, is_active, is_message, address_eq, bare_result,
}
use bridle.Errors.{ok, require-eq-ok, >>=-eq-ok}
use bridle.Prelude.{
  ◌∙◌, List, [], ◌∷◌, none, true, false, inl, inr, ℕ, String, select_one, ◌==◌, ◌&&◌, ◌≡◌, rowcount,
  arith, All, ◌≤◌, Bool-cases, eq-of-==, ap, string_eq, nat_eq,
}

no_active-no_claimable :
    (target : AgentAddress) (now : ℕ) (ms : List Message)
    → select_one (λ m. m.target_address == target && is_active m) ms ≡ none
    → All (λ m. is_claimable target now m ≡ false) ms
unfolding select_one
no_active-no_claimable target now [] h = tt
no_active-no_claimable target now (m ∷ ms) h =
    elim (Bool-cases (m.target_address == target && is_active m)) [
      | inl e ↦ absurd (ground arith)
      | inr e ↦ (ground arith, no_active-no_claimable target now ms (rw e at h))
    ]

module _ (c : Consumer) (target : AgentAddress) (ms : List Message) where
  pending_inv :
      has_pending c target ms ≡ ok false
      → select_one (λ m. m.target_address == target && is_active m) ms ≡ none
  unfolding has_pending
  pending_inv h = ground arith

  empty_inv :
      (expected before after : ℕ)
      → is_empty_at_version c target expected before after ms ≡ ok true
      → (before ≡ expected) × (after ≡ expected) × (has_pending c target ms ≡ ok false)
  unfolding is_empty_at_version
  empty_inv expected before after h =
      let (_, h₁) = require-eq-ok (target.project_id == c.project_id) _ _ h in
      elim (Bool-cases (before == expected)) [
        | inr e ↦ absurd (ground arith)
        | inl e ↦
            let (found, pending, q) = >>=-eq-ok (has_pending c target ms) _ (rw e at h₁) in
            let settled : (found ≡ false) × ((after == expected) ≡ true) = ground arith in
            (
              eq-of-== before expected e,
              eq-of-== after expected settled.1,
              pending ∙ ap ok settled.0,
            )
      ]

  -- A mailbox that is found empty at a wake version had that version before and after the table
  -- was read, and on that table, with unique ids and not locked, an open consumer of the project
  -- claims nothing for the target, now or later.
  pub is_empty_at_version-idle :
      (expected before after : ℕ) (c' : Consumer) (t : Moment) (token : String)
      → is_empty_at_version c target expected before after ms ≡ ok true
      → c'.is_closed ≡ false
      → t.is_locked ≡ false
      → target.project_id ≡ c'.project_id
      → ((message_id : String) → rowcount (is_message message_id) ms ≤ 1)
      → (before ≡ expected)
        × (after ≡ expected)
        × (claim c' t token target ms ≡ ok (ms, bare_result empty))
  is_empty_at_version-idle expected before after c' t token h open_box free own keyed =
      let (b, a, p) = empty_inv expected before after h in
      (
        b,
        a,
        (claim-empty c' t token target ms open_box free own keyed).1 (
            none-earliest (is_claimable target t.now) ms
              (no_active-no_claimable target t.now ms (pending_inv p))),
      )
