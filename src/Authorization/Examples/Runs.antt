-- ===== src/Authorization/Examples/Runs.antt =====
-- Runs of reservations, revocations and guarded continuations.
use bridle.Authorization.Tokens.Quiet.{revoke_quiet}
use bridle.Prelude.{[], ◌∷◌, none, some, true, false, refl, any, ◌≡◌, ◌≢◌, nat_eq, arith}
use bridle.Authorization.Grants.{RevocationToken, root, child}
use bridle.Authorization.Tokens.{
  Tokens, Reservation, pending, entered, reserve_start_locked, walk, finish, finish_each,
  start_each, revoke, may_return, set_event,
}
use bridle.Authorization.Tokens.Schedule.{
  Threads, Reach, reserve_start, conclude, set_revoked, return_revoked, start, next, idle,
  pending_below,
}

abbrev quiet : Tokens
quiet = record { event = λ _. false; pending_starts = λ _. 0 }

abbrev lead : RevocationToken
lead = root 1

abbrev worker : RevocationToken
worker = child lead 2

abbrev launched : Reservation
launched = record { markers = 1 ∷ 2 ∷ []; state = pending }

abbrev reserved_tokens : Tokens
reserved_tokens = record quiet { pending_starts = start_each (1 ∷ 2 ∷ []) (λ _. 0) }

worker_reserves : reserve_start_locked (idle quiet).tokens worker ≡ some (launched, reserved_tokens)
unfolding reserve_start_locked walk any nat_eq
worker_reserves = refl

-- A start below the lead token is reserved, and the lead token is revoked while it is pending.
abbrev pending_run : Threads
pending_run = record {
  tokens = (revoke lead reserved_tokens).1;
  reservations = launched ∷ [];
  returned = λ _. false;
}

pending_Reach : Reach (idle quiet) pending_run
pending_Reach =
    next (next start (reserve_start worker launched reserved_tokens worker_reserves))
      (set_revoked lead)

entered_not_pending : entered ≢ pending
entered_not_pending e = absurd (ground arith)

-- The start is entered, and `revoke` returns.
abbrev entered_run : Threads
entered_run = record {
  tokens = (finish entered launched pending_run.tokens).1;
  reservations = (finish entered launched pending_run.tokens).0 ∷ [];
  returned = λ _. false;
}

abbrev returned_run : Threads
returned_run = record entered_run { returned = set_event 1 (λ _. false) }

lead_drained : may_return lead entered_run.tokens ≡ true
unfolding may_return finish finish_each start_each revoke nat_eq
lead_drained = refl

lead_set : entered_run.tokens.event 1 ≡ true
unfolding finish revoke nat_eq
lead_set = refl

returned_Reach : Reach (idle quiet) returned_run
returned_Reach =
    next (next pending_Reach (conclude entered [] [] launched entered_not_pending refl))
      (return_revoked lead lead_set lead_drained)

revoke_quiet_example :
    (pending_below 1 returned_run.reservations ≡ 0)
    × (reserve_start_locked returned_run.tokens worker ≡ none)
unfolding nat_eq
revoke_quiet_example = revoke_quiet quiet 1 worker returned_Reach refl refl
