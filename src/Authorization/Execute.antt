-- ===== src/Authorization/Execute.antt =====
-- backend/src/bridle/agent/runtime/authorization.py: `execute_authorized`.
pub mod Equivalence
use bridle.Prelude.{
  ◌∙◌, List, [], ◌∷◌, ◌++◌, none, some, true, false, Option, zero, suc, inl, inr, refl, Bool, ℕ,
  String, if◌then◌else◌, not,
}
use bridle.Errors.{◌>>◌, ◌>>=◌, ok, raise, Result, require}
use bridle.Authorization.Grants.{AgentGrant, Encoding}
use bridle.Authorization.Tokens.{Tokens, Reservation, active, enter, cancel, reserve_start_locked}
use bridle.Authorization.Decide.{AuthorizationDecision, allowed, decision, authorize_active}

pub record AuthorizedContinuationResult {ℓ} (A : Type ℓ) : Type ℓ where
  pub decided : AuthorizationDecision
  pub executed : Bool
  pub result : Option A

-- What the guarded block leaves: an answer without a start, or a reservation.
pub data Start : Type 0 where
  declined : AuthorizationDecision → Start
  reserved : AuthorizationDecision → Reservation → Start

module _ (encoding : Encoding) where
  abbrev pub reserve :
      AgentGrant
      → String
      → String
      → Option (List (String × String))
      → AuthorizationDecision
      → Tokens
      → Option (Reservation × Tokens)
      → Start × Tokens
  reserve grant action resource_type attributes decided tokens none = (
    declined (decision encoding grant false "grant_revoked" action resource_type attributes),
    tokens,
  )
  reserve grant action resource_type attributes decided tokens (some (reservation, tokens')) =
      (reserved decided reservation, tokens')

  -- The block under `active_guard`.
  unfoldable pub start_authorized :
      Tokens → AgentGrant → String → String → Option (List (String × String)) → Start × Tokens
  start_authorized tokens grant action resource_type attributes =
      let decided = authorize_active encoding grant action resource_type attributes in
      if not (active tokens grant.revocation)
      then (
        declined (decision encoding grant false "grant_revoked" action resource_type attributes),
        tokens,
      )
      else if not (allowed tokens decided)
      then (declined decided, tokens)
      else reserve grant action resource_type attributes decided tokens
          (reserve_start_locked tokens grant.revocation)

module _ {ℓ} {A : Type ℓ} where
  -- The handler of the `try`: an exception of the continuation cancels the reservation and passes.
  abbrev pub settle :
      AuthorizationDecision
      → Reservation
      → Result A × Tokens
      → Result (AuthorizedContinuationResult A) × Tokens
  settle decided reservation (raise e, tokens) = (raise e, (cancel reservation tokens).1)
  settle decided reservation (ok value, tokens) =
      (ok record { decided = decided; executed = true; result = some value }, tokens)

  -- What follows the guarded block; the continuation runs on the state that it finds.
  abbrev pub finish_authorized :
      (Tokens → Result A × Tokens)
      → Start × Tokens
      → Result (AuthorizedContinuationResult A) × Tokens
  finish_authorized continuation (declined decided, tokens) =
      (ok record { decided = decided; executed = false; result = none }, tokens)
  finish_authorized continuation (reserved decided reservation, tokens) =
      let (entered_reservation, tokens') = enter reservation tokens in
      settle decided entered_reservation (continuation tokens')

  unfoldable pub execute_authorized :
      Encoding
      → Tokens
      → AgentGrant
      → String
      → String
      → Option (List (String × String))
      → (Tokens → Result A × Tokens)
      → Result (AuthorizedContinuationResult A) × Tokens
  execute_authorized encoding tokens grant action resource_type attributes continuation =
      finish_authorized continuation
        (start_authorized encoding tokens grant action resource_type attributes)
