-- ===== src/Authorization/Decide/Rules.antt =====
-- The rules by which `authorize` decides.
use bridle.Authorization.Normalize.{known_resource_types}
use bridle.Prelude.{
  ◌∙◌, List, true, false, Option, inl, inr, refl, Bool, String, ◌≡◌, keep, not, contains, ◌&&◌, In,
  any, string_eq, ◌==◌, Bool-cases, ◌↔◌, sym, any-In, arith, In-keep, In-any, keep-In, ap, eq_self,
  eq-of-==,
}
use bridle.Authorization.Grants.{AgentGrant, Encoding, ResourceScope}
use bridle.Authorization.Tokens.{Tokens, revoked}
use bridle.Authorization.Decide.{
  allowed, authorize, authorize_active, decision, scope_matches_request, normalize_attributes,
}

abbrev pub Attributes : Type 0
Attributes = Option (List (String × String))

-- The scopes of a grant that match a request.
abbrev pub matching : AgentGrant → String → String → Attributes → List ResourceScope
matching grant action resource_type attributes =
    keep (scope_matches_request action resource_type (normalize_attributes attributes))
      grant.resource_scopes

-- What a request needs: a grant that is not revoked, a resource type that is known, no scope that
-- denies it and one that allows it.
pub record IsPermitted (tokens : Tokens) (grant : AgentGrant) (action resource_type : String)
    (attributes : Attributes) : Type 0 where
  pub unrevoked : revoked tokens grant.revocation ≡ false
  pub known : contains known_resource_types resource_type ≡ true
  pub undenied :
      (scope : ResourceScope)
      → In scope grant.resource_scopes
      → scope.effect ≡ "deny"
      → scope_matches_request action resource_type (normalize_attributes attributes) scope ≡ false
  pub granting : ResourceScope
  pub held : In granting grant.resource_scopes
  pub allows : granting.effect ≡ "allow"
  pub covers :
      scope_matches_request action resource_type (normalize_attributes attributes) granting ≡ true

module _ (encoding : Encoding) (tokens : Tokens) (grant : AgentGrant)
    (action resource_type : String) (attributes : Attributes) where
  abbrev matched : List ResourceScope
  matched = matching grant action resource_type attributes

  -- The four tests of a decision.
  allowed-tests :
      allowed tokens (authorize encoding tokens grant action resource_type attributes) ≡ (
        not (revoked tokens grant.revocation)
        && contains known_resource_types resource_type
        && not (any (λ (scope : ResourceScope). scope.effect == "deny") matched)
        && any (λ (scope : ResourceScope). scope.effect == "allow") matched)
  unfolding allowed authorize authorize_active decision
  allowed-tests = elim (Bool-cases (revoked tokens grant.revocation)) [
    | inl a ↦ rw a refl
    | inr a ↦ elim (Bool-cases (contains known_resource_types resource_type)) [
      | inr b ↦ rw a (rw b refl)
      | inl b ↦
          elim (Bool-cases (any (λ (scope : ResourceScope). scope.effect == "deny") matched)) [
            | inl c ↦ rw a (rw b (rw c refl))
            | inr c ↦
                elim (Bool-cases
                  (any (λ (scope : ResourceScope). scope.effect == "allow") matched)) [
                    | inl d ↦ rw a (rw b (rw c (rw d (rw a refl))))
                    | inr d ↦ rw a (rw b (rw c (rw d refl)))
                  ]
          ]
    ]
  ]

  -- A request is allowed exactly when no token of the lineage of the grant is revoked, the
  -- resource type is known, no scope of the grant that matches the request denies, and one that
  -- matches it allows.
  pub authorize_iff :
      (allowed tokens (authorize encoding tokens grant action resource_type attributes) ≡ true)
      ↔ IsPermitted tokens grant action resource_type attributes
  authorize_iff = (sound, complete)
    where
      fits : ResourceScope → Bool
      fits = scope_matches_request action resource_type (normalize_attributes attributes)

      denied : ResourceScope → Bool
      denied scope = scope.effect == "deny"

      granted : ResourceScope → Bool
      granted scope = scope.effect == "allow"

      sound :
          allowed tokens (authorize encoding tokens grant action resource_type attributes) ≡ true
          → IsPermitted tokens grant action resource_type attributes
      sound h =
          let tests = sym allowed-tests ∙ h in
          let (scope, m, effect) = any-In granted matched (ground arith) in
          let (n, fit) = In-keep fits grant.resource_scopes m in
          record {
            unrevoked = ground arith;
            known = ground arith;
            undenied = λ other k e. elim (Bool-cases (fits other)) [
              | inr q ↦ q
              | inl q ↦
                  let met : any denied matched ≡ true =
                    In-any denied matched (keep-In fits grant.resource_scopes k q)
                      (ap (λ t. t == "deny") e ∙ eq_self {A = String} "deny") in
                  absurd (ground arith)
            ];
            granting = scope;
            held = n;
            allows = eq-of-== scope.effect "allow" effect;
            covers = fit;
          }

      complete :
          IsPermitted tokens grant action resource_type attributes
          → allowed tokens (authorize encoding tokens grant action resource_type attributes) ≡ true
      complete p =
          let some_allow : any granted matched ≡ true =
            In-any granted matched (keep-In fits grant.resource_scopes p.held p.covers)
              (ap (λ t. t == "allow") p.allows ∙ eq_self {A = String} "allow") in
          let no_deny : any denied matched ≡ false = elim (Bool-cases (any denied matched)) [
            | inr q ↦ q
            | inl q ↦
                let (scope, m, effect) = any-In denied matched q in
                let (n, fit) = In-keep fits grant.resource_scopes m in
                let other = p.undenied scope n (eq-of-== scope.effect "deny" effect) in
                absurd (ground arith)
          ] in
          let a = p.unrevoked in
          let b = p.known in allowed-tests ∙ rw a (rw b (rw no_deny (rw some_allow refl)))
