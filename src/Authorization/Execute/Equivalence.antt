-- ===== src/Authorization/Execute/Equivalence.antt =====
-- `execute_authorized` beside a plain test of the decision.
use bridle.Authorization.Tokens.Lineage.{markers_of, revoked-some}
use bridle.Prelude.{
  ◌∙◌, List, none, some, true, false, inl, inr, refl, ℕ, String, ◌≡◌, if◌then◌else◌, Bool-cases,
  contains, arith, nat_eq, ap,
}
use mathlib.Core.Path.{fun_ext}
use bridle.Errors.{ok, raise, Result}
use bridle.Authorization.Grants.{RevocationToken, AgentGrant, Encoding}
use bridle.Authorization.Tokens.{
  Tokens, pending, entered, reserve_start_locked, finish, start_each, finish_each, revoked,
}
use bridle.Authorization.Decide.{
  AuthorizationDecision, allowed, authorize, authorize_active, decision,
}
use bridle.Authorization.Decide.Rules.{Attributes}
use bridle.Authorization.Execute.{
  AuthorizedContinuationResult, execute_authorized, start_authorized, finish_authorized, settle,
  reserved,
}

-- What a caller expects: the decision, and the continuation only if it allows.
abbrev pub answer {ℓ} :
    {A : Type ℓ}
    → AuthorizationDecision
    → Result A × Tokens
    → Result (AuthorizedContinuationResult A) × Tokens
answer decided (raise e, tokens) = (raise e, tokens)
answer decided (ok value, tokens) =
    (ok record { decided = decided; executed = true; result = some value }, tokens)

abbrev pub run_if_allowed {ℓ} :
    {A : Type ℓ}
    → Tokens
    → AuthorizationDecision
    → (Tokens → Result A × Tokens)
    → Result (AuthorizedContinuationResult A) × Tokens
run_if_allowed tokens decided continuation =
    if allowed tokens decided
    then answer decided (continuation tokens)
    else (ok record { decided = decided; executed = false; result = none }, tokens)

finish_start :
    (markers : List ℕ) (starts : ℕ → ℕ) → finish_each markers (start_each markers starts) ≡ starts
unfolding finish_each start_each
finish_start markers starts =
    fun_ext
      λ m. elim (Bool-cases (contains markers m)) [ inl c ↦ rw c (omega arith) | inr c ↦ rw c refl ]

-- The reservation that has been entered is not cancelled by the handler.
settle-answer {ℓ} :
    {A : Type ℓ} (decided : AuthorizationDecision) (markers : List ℕ) (out : Result A × Tokens)
    → settle decided record { markers = markers; state = entered } out ≡ answer decided out
unfolding finish
settle-answer decided markers (raise e, tokens) = refl
settle-answer decided markers (ok value, tokens) = refl

-- A reservation that is entered at once leaves the tokens as they were.
finish_reserved {ℓ} :
    {A : Type ℓ} (decided : AuthorizationDecision) (markers : List ℕ) (tokens : Tokens)
    (continuation : Tokens → Result A × Tokens)
    → finish_authorized continuation (
      reserved decided record { markers = markers; state = pending },
      record tokens { pending_starts = start_each markers tokens.pending_starts },
    )
      ≡ answer decided (continuation tokens)
unfolding finish
finish_reserved decided markers tokens continuation =
    ap
      (λ (starts : ℕ → ℕ).
        settle decided record { markers = markers; state = entered }
          (continuation (record tokens { pending_starts = starts })))
      (finish_start markers tokens.pending_starts)
    ∙ settle-answer decided markers (continuation tokens)

reserve_active :
    (tokens : Tokens) (token : RevocationToken)
    → revoked tokens token ≡ false
    → reserve_start_locked tokens token
      ≡ some (
        record { markers = markers_of token; state = pending },
        record tokens { pending_starts = start_each (markers_of token) tokens.pending_starts },
      )
unfolding reserve_start_locked
reserve_active tokens token h = let (e, quiet) = revoked-some tokens token h in rw e (rw quiet refl)

module _ {ℓ} {A : Type ℓ} (encoding : Encoding) (tokens : Tokens) (grant : AgentGrant)
    (action resource_type : String) (attributes : Attributes)
    (continuation : Tokens → Result A × Tokens) where
  refused :
      (reason : String)
      → allowed tokens (decision encoding grant false reason action resource_type attributes)
        ≡ false
  unfolding allowed decision
  refused reason = refl

  -- Without another thread in between, `execute_authorized` runs the continuation on the state at
  -- the call exactly when the decision of `authorize` allows it, passes its exception or its
  -- result on, leaves the tokens as the continuation left them, and otherwise returns the decision
  -- and changes nothing.
  pub execute_authorized_lem :
      execute_authorized encoding tokens grant action resource_type attributes continuation
      ≡ run_if_allowed tokens
          (authorize encoding tokens grant action resource_type attributes)
          continuation
  unfolding execute_authorized start_authorized authorize
  execute_authorized_lem = elim (Bool-cases (revoked tokens grant.revocation)) [
    | inl a ↦ rw a (rw (refused "grant_revoked") refl)
    | inr a ↦
        elim (Bool-cases
          (allowed tokens (authorize_active encoding grant action resource_type attributes))) [
            | inr b ↦ rw a (rw b refl)
            | inl b ↦ rw a (
                rw b (
                  rw (reserve_active tokens grant.revocation a) (
                    finish_reserved
                      (authorize_active encoding grant action resource_type attributes)
                      (markers_of grant.revocation) tokens continuation)))
          ]
  ]
