-- ===== src/Authorization/Tokens/Quiet.antt =====
-- What `revoke` leaves behind when it returns.
use bridle.Authorization.Tokens.Lineage.{markers_of, revoked-some}
use bridle.Prelude.{
  ◌∙◌, ◌∷◌, none, true, inl, inr, refl, Bool, ℕ, ◌≡◌, sym, any, Bool-cases, arith, ap, Option-cases,
  contains, nat_eq, In-any, ◌==◌, contains-In, eq-of-==,
}
use mathlib.Core.Path.{subst}
use mathlib.Core.Bool.{true≢false}
use bridle.Authorization.Grants.{RevocationToken}
use bridle.Authorization.Tokens.{
  Tokens, reserve_start_locked, revoke, may_return, own_marker, lineage, start_each, revoked,
  any_set,
}
use bridle.Authorization.Tokens.Counts.{
  reserve_start_locked-inverse, reserved-count, finished-count, finish-event, finish-closed,
  start-closed,
}
use bridle.Authorization.Tokens.Schedule.{
  Threads, Step, Reach, reserve_start, conclude, set_revoked, return_revoked, start, next, idle,
  pending_below,
}

-- `_pending_starts` counts the pending reservations, and a token whose `revoke` has returned is
-- revoked and has none.
pub record IsBalanced (s : Threads) : Type 0 where
  pub counted : (m : ℕ) → s.tokens.pending_starts m ≡ pending_below m s.reservations
  pub closed :
      (m : ℕ) → s.returned m ≡ true → (s.tokens.event m ≡ true) × (s.tokens.pending_starts m ≡ 0)

idle-IsBalanced : (tokens : Tokens) → IsBalanced (idle tokens)
unfolding pending_below
idle-IsBalanced tokens = record { counted = λ m. refl; closed = λ m h. absurd (true≢false (sym h)) }

Step-IsBalanced : {s t : Threads} → Step s t → IsBalanced s → IsBalanced t
unfolding revoke may_return
Step-IsBalanced {s} (reserve_start token reservation tokens h) b =
    let (quiet, p, e) = reserve_start_locked-inverse s.tokens tokens token reservation h in
    let made : Tokens = record s.tokens {
      pending_starts = start_each reservation.markers s.tokens.pending_starts;
    } in
    subst
      (λ (t : Tokens).
        IsBalanced (record s { tokens = t; reservations = reservation ∷ s.reservations }))
      (sym e)
      record {
        counted = λ m.
            reserved-count m reservation s.reservations s.tokens.pending_starts p (b.counted m);
        closed = λ m r.
            let (set, zero_starts) = b.closed m r in
            (set, start-closed m reservation s.tokens quiet set ∙ zero_starts);
      }
Step-IsBalanced {s} (conclude state before after reservation n e) b = record {
  counted = λ m.
      finished-count m state reservation s.tokens before after n
        (b.counted m ∙ ap (pending_below m) e);
  closed = λ m r.
      let (set, zero_starts) = b.closed m r in
      (
        ap (λ (f : ℕ → Bool). f m) (finish-event state reservation s.tokens) ∙ set,
        finish-closed m state reservation s.tokens zero_starts,
      );
}
Step-IsBalanced {s} (set_revoked token) b = record {
  counted = b.counted;
  closed = λ m r.
      let (set, zero_starts) = b.closed m r in
      (let also = set in ground (arith, also), zero_starts);
}
Step-IsBalanced {s} (return_revoked token set drained) b = record {
  counted = b.counted;
  closed = λ m r. elim (Bool-cases (m == own_marker token)) [
    | inl q ↦
        let same = eq-of-== m (own_marker token) q in
        (
          ap s.tokens.event same ∙ set,
          ap s.tokens.pending_starts same
              ∙ eq-of-== (s.tokens.pending_starts (own_marker token)) 0 drained,
        )
    | inr q ↦ b.closed m (rw q at r)
  ];
}

pub Reach-IsBalanced : {s t : Threads} → Reach s t → IsBalanced s → IsBalanced t
Reach-IsBalanced start b = b
Reach-IsBalanced (next r st) b = Step-IsBalanced st (Reach-IsBalanced r b)

reserve_revoked :
    (tokens : Tokens) (token : RevocationToken)
    → revoked tokens token ≡ true
    → reserve_start_locked tokens token ≡ none
unfolding revoked reserve_start_locked
reserve_revoked tokens token h = elim (Option-cases (lineage token)) [
  | inl e ↦ rw e refl
  | inr (markers, e) ↦
      let set : any tokens.event markers ≡ true = ap (any_set tokens) (sym e) ∙ h in
      rw e (rw set refl)
]

-- A token is revoked as soon as one of its lineage is.
pub revoked_of_marker :
    (tokens : Tokens) (token : RevocationToken) (m : ℕ)
    → contains (markers_of token) m ≡ true
    → tokens.event m ≡ true
    → revoked tokens token ≡ true
revoked_of_marker tokens token m c set = elim (Bool-cases (revoked tokens token)) [
  | inl q ↦ q
  | inr q ↦
      let (_, quiet) = revoked-some tokens token q in
      absurd (
        true≢false (
          sym (In-any tokens.event (markers_of token) (contains-In (markers_of token) m c) set)
          ∙ quiet))
]

-- In whatever order threads reserve, enter, cancel and revoke from an idle state: once `revoke` of
-- a token has returned, no start that was reserved below it is pending, and none can be reserved
-- for it or for a token that descends from it.
pub revoke_quiet :
    (tokens : Tokens) {s : Threads} (m : ℕ) (token : RevocationToken)
    → Reach (idle tokens) s
    → s.returned m ≡ true
    → contains (markers_of token) m ≡ true
    → (pending_below m s.reservations ≡ 0) × (reserve_start_locked s.tokens token ≡ none)
revoke_quiet tokens {s} m token r h c =
    let b = Reach-IsBalanced r (idle-IsBalanced tokens) in
    let (set, zero_starts) = b.closed m h in
    (
      sym (b.counted m) ∙ zero_starts,
      reserve_revoked s.tokens token (revoked_of_marker s.tokens token m c set),
    )
