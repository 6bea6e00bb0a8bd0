-- ===== src/Authorization/Tokens.antt =====
-- backend/src/bridle/agent/runtime/authorization.py: `RevocationToken` and
-- `ContinuationStartReservation`.
pub mod Lineage
pub mod Schedule
pub mod Counts
pub mod Quiet
use bridle.Prelude.{
  ◌∙◌, List, [], ◌∷◌, ◌++◌, none, some, true, false, Option, zero, suc, inl, inr, refl, Bool, ℕ,
  String, if◌then◌else◌, any, not, ◌==◌, contains, nat_eq, ◌||◌, ◌-◌, ◌+◌,
}
use bridle.Authorization.Grants.{RevocationToken, root, child}

-- What the tokens share and change: the event and the pending starts of each, by identity.
pub record Tokens : Type 0 where
  pub event : ℕ → Bool
  pub pending_starts : ℕ → ℕ

-- The walk of `_lineage` from a token to its root; the result begins with the root.
unfoldable pub walk : List ℕ → RevocationToken → Option (List ℕ)
walk seen (root marker) = if contains seen marker then none else some (marker ∷ seen)
walk seen (child parent marker) = if contains seen marker then none else walk (marker ∷ seen) parent

abbrev pub lineage : RevocationToken → Option (List ℕ)
lineage token = walk [] token

abbrev pub any_set : Tokens → Option (List ℕ) → Bool
any_set tokens none = true
any_set tokens (some markers) = any tokens.event markers

unfoldable pub revoked : Tokens → RevocationToken → Bool
revoked tokens token = any_set tokens (lineage token)

-- What `active_guard` yields under the locks of the lineage.
abbrev pub active : Tokens → RevocationToken → Bool
active tokens token = not (revoked tokens token)

pub data ReservationState : Type 0 where
  pending entered cancelled : ReservationState

pub record Reservation : Type 0 where
  pub markers : List ℕ
  pub state : ReservationState

-- `token._pending_starts[0] += 1` and `-= 1` for every token of a lineage.
unfoldable pub start_each : List ℕ → (ℕ → ℕ) → ℕ → ℕ
start_each markers starts marker =
    if contains markers marker then starts marker + 1 else starts marker

unfoldable pub finish_each : List ℕ → (ℕ → ℕ) → ℕ → ℕ
finish_each markers starts marker =
    if contains markers marker then starts marker - 1 else starts marker

abbrev pub reserve_markers : Tokens → Option (List ℕ) → Option (Reservation × Tokens)
reserve_markers tokens none = none
reserve_markers tokens (some markers) =
    if any tokens.event markers
    then none
    else some (
      record { markers = markers; state = pending },
      record tokens { pending_starts = start_each markers tokens.pending_starts },
    )

unfoldable pub reserve_start_locked : Tokens → RevocationToken → Option (Reservation × Tokens)
reserve_start_locked tokens token = reserve_markers tokens (lineage token)

abbrev pub finish_from :
    ReservationState → ReservationState → Reservation → Tokens → Reservation × Tokens
finish_from pending state reservation tokens = (
  record reservation { state = state },
  record tokens { pending_starts = finish_each reservation.markers tokens.pending_starts },
)
finish_from entered state reservation tokens = (reservation, tokens)
finish_from cancelled state reservation tokens = (reservation, tokens)

unfoldable pub finish : ReservationState → Reservation → Tokens → Reservation × Tokens
finish state reservation tokens = finish_from reservation.state state reservation tokens

abbrev pub enter : Reservation → Tokens → Reservation × Tokens
enter reservation tokens = finish entered reservation tokens

abbrev pub cancel : Reservation → Tokens → Reservation × Tokens
cancel reservation tokens = finish cancelled reservation tokens

-- `revoke` up to its wait: the event is set, and whether that changed it.
abbrev pub set_event : ℕ → (ℕ → Bool) → ℕ → Bool
set_event marker event other = other == marker || event other

abbrev pub own_marker : RevocationToken → ℕ
own_marker (root marker) = marker
own_marker (child parent marker) = marker

unfoldable pub revoke : RevocationToken → Tokens → Bool × Tokens
revoke token tokens = (
  not (tokens.event (own_marker token)),
  record tokens { event = set_event (own_marker token) tokens.event },
)

-- The condition under which the wait of `revoke` ends.
unfoldable pub may_return : RevocationToken → Tokens → Bool
may_return token tokens = tokens.pending_starts (own_marker token) == 0
