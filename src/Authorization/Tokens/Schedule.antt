-- ===== src/Authorization/Tokens/Schedule.antt =====
-- Starts and revocations of any threads, in any order: each step is what one thread does while it
-- holds the locks of a lineage.
use bridle.Prelude.{
  List, [], ◌∷◌, ◌++◌, some, true, false, Bool, ℕ, if◌then◌else◌, ◌≡◌, ◌≢◌, ◌&&◌, contains, ◌+◌,
  nat_eq,
}
use bridle.Authorization.Grants.{RevocationToken}
use bridle.Authorization.Tokens.{
  Tokens, Reservation, ReservationState, pending, entered, cancelled, reserve_start_locked, finish,
  revoke, may_return, own_marker, set_event,
}

-- The tokens, the reservations made so far, and the tokens whose `revoke` has returned.
pub record Threads : Type 0 where
  pub tokens : Tokens
  pub reservations : List Reservation
  pub returned : ℕ → Bool

pub data Step (s : Threads) : Threads → Type 0 where
  reserve_start :
      (token : RevocationToken) (reservation : Reservation) (tokens : Tokens)
      → reserve_start_locked s.tokens token ≡ some (reservation, tokens)
      → Step s (record s { tokens = tokens; reservations = reservation ∷ s.reservations })
  conclude :
      (state : ReservationState) (before after : List Reservation) (reservation : Reservation)
      → state ≢ pending
      → s.reservations ≡ before ++ reservation ∷ after
      → Step s (record s {
        tokens = (finish state reservation s.tokens).1;
        reservations = before ++ (finish state reservation s.tokens).0 ∷ after;
      })
  set_revoked : (token : RevocationToken) → Step s (record s { tokens = (revoke token s.tokens).1 })
  return_revoked :
      (token : RevocationToken)
      → s.tokens.event (own_marker token) ≡ true
      → may_return token s.tokens ≡ true
      → Step s (record s { returned = set_event (own_marker token) s.returned })

pub data Reach (s : Threads) : Threads → Type 0 where
  start : Reach s s
  next : {t u : Threads} → Reach s t → Step t u → Reach s u

-- No start has been reserved and no `revoke` has returned.
abbrev pub idle : Tokens → Threads
idle tokens = record {
  tokens = record tokens { pending_starts = λ _. 0 };
  reservations = [];
  returned = λ _. false;
}

abbrev pub is_pending : Reservation → Bool
is_pending reservation = elim reservation.state [
  | pending ↦ true
  | entered ↦ false
  | cancelled ↦ false
]

-- The pending starts below a token.
unfoldable pub pending_below : ℕ → List Reservation → ℕ
pending_below marker [] = 0
pending_below marker (r ∷ rs) =
    (if is_pending r && contains r.markers marker then 1 else 0) + pending_below marker rs
