-- ===== src/Authorization/Derive/Chain.antt =====
-- Requests along a chain of derivations.
use bridle.Authorization.Tokens.Lineage.{active-child}
use bridle.Prelude.{
  ◌∙◌, List, true, false, inl, inr, ℕ, String, ◌≡◌, sym, ap, false_of_not, Bool-cases, not,
}
use mathlib.Core.Bool.{true≢false}
use bridle.Authorization.Grants.{AgentGrant, Encoding, ResourceScope, child}
use bridle.Authorization.Tokens.{Tokens, revoked}
use bridle.Authorization.Decide.{authorize, allowed, normalize_attributes, scope_matches_request}
use bridle.Authorization.Decide.Rules.{IsPermitted, Attributes, authorize_iff}
use bridle.Authorization.Derive.{check_scope}
use bridle.Authorization.Derive.Matching.{
  Matches, Matches-of_request, Matches-scopes_overlap, request-of_Matches, scope_contains-Matches,
}
use bridle.Authorization.Derive.Inverse.{IsDerived, derive-IsDerived, check_each-In}
use bridle.Authorization.Derive.Escalation.{
  Issued, Descends, itself, step, derived, HasDistinctKeys, check_scope_sound,
  Issued-HasDistinctKeys,
}
use bridle.Authorization.Normalize.Scopes.{
  IsNormalFormOf, In-normalize_resource_scopes, action_again, attribute_again,
}

-- What the scope of a grant matches, the scope that `derive` checked matches.
normal-Matches :
    (action resource_type : String) (request : List (String × String))
    {first second third : ResourceScope}
    → IsNormalFormOf first second
    → IsNormalFormOf second third
    → Matches action resource_type request third
    → Matches action resource_type request second
normal-Matches action resource_type request f g m = record {
  kind = sym g.same_type ∙ m.kind;
  acts = action_again action f g m.acts;
  attribute = λ k v n. m.attribute k v (attribute_again k v f g n);
}

revoked-child :
    (tokens : Tokens) (grant parent : AgentGrant) (marker : ℕ)
    → grant.revocation ≡ child parent.revocation marker
    → revoked tokens grant.revocation ≡ false
    → revoked tokens parent.revocation ≡ false
revoked-child tokens grant parent marker e h =
    let quiet : revoked tokens (child parent.revocation marker) ≡ false =
      ap (revoked tokens) (sym e) ∙ h in
    false_of_not (revoked tokens parent.revocation)
      (active-child tokens parent.revocation marker (ap not quiet))

-- What a derived grant permits, its parent permits.
derived-IsPermitted :
    {encoding : Encoding} {before now : Tokens} {marker : ℕ} {parent grant : AgentGrant}
    (action resource_type : String) (attributes : Attributes)
    → IsDerived encoding before marker parent grant
    → HasDistinctKeys parent
    → IsPermitted now grant action resource_type attributes
    → IsPermitted now parent action resource_type attributes
derived-IsPermitted {encoding} {now = now} {marker} {parent} {grant} action resource_type attributes
      d keys p =
    let request = normalize_attributes attributes in
    let (second, m, g) =
      In-normalize_resource_scopes encoding d.scopes grant.resource_scopes p.granting
        d.built.scopes_normal p.held in
    let (first, _, f) =
      In-normalize_resource_scopes encoding d.given_scopes d.scopes second d.scopes_normal m in
    let covers : Matches action resource_type request second =
      normal-Matches action resource_type request f g
        (Matches-of_request action resource_type request p.granting p.covers) in
    let ((container, n, allow, contained), apart) =
      check_scope_sound parent.resource_scopes second
        (check_each-In (check_scope parent.resource_scopes) d.scopes d.scopes_checked m)
        (sym g.same_effect ∙ p.allows) in
    record {
      unrevoked = revoked-child now grant parent marker d.built.same_token p.unrevoked;
      known = p.known;
      undenied = λ deny k e.
          elim (Bool-cases (scope_matches_request action resource_type request deny)) [
            | inr q ↦ q
            | inl q ↦ absurd (
                true≢false (
                  sym (
                    Matches-scopes_overlap action resource_type request deny second
                      (Matches-of_request action resource_type request deny q) covers)
                  ∙ apart deny k e))
          ];
      granting = container;
      held = n;
      allows = allow;
      covers = request-of_Matches action resource_type request container (
          scope_contains-Matches action resource_type request container second (keys container n)
            contained covers);
    }

descends-IsPermitted :
    {encoding : Encoding} {now : Tokens} {ancestor grant : AgentGrant}
    (action resource_type : String) (attributes : Attributes)
    → Issued encoding ancestor
    → Descends encoding ancestor grant
    → IsPermitted now grant action resource_type attributes
    → IsPermitted now ancestor action resource_type attributes
descends-IsPermitted action resource_type attributes i itself p = p
descends-IsPermitted {encoding} action resource_type attributes i
      (step {parent} tokens marker identity scopes tools skills budget {grant} d h) p =
    descends-IsPermitted action resource_type attributes i d (
      derived-IsPermitted action resource_type attributes
        (derive-IsDerived encoding tokens marker parent identity scopes tools skills budget grant h)
        (Issued-HasDistinctKeys (issued_along i d)) p)
  where
    issued_along :
        {ancestor parent : AgentGrant}
        → Issued encoding ancestor
        → Descends encoding ancestor parent
        → Issued encoding parent
    issued_along i itself = i
    issued_along i (step tokens marker identity scopes tools skills budget d h) =
        derived tokens marker identity scopes tools skills budget (issued_along i d) h

-- A chain of derivations never widens what a grant allows: if a grant that descends from an issued
-- grant allows a request, whatever the state of the tokens is now, then the issued grant allows
-- that request in this state.
pub no_escalation :
    (encoding : Encoding) (now : Tokens) {ancestor grant : AgentGrant}
    (action resource_type : String) (attributes : Attributes)
    → Issued encoding ancestor
    → Descends encoding ancestor grant
    → allowed now (authorize encoding now grant action resource_type attributes) ≡ true
    → allowed now (authorize encoding now ancestor action resource_type attributes) ≡ true
no_escalation encoding now {ancestor} {grant} action resource_type attributes i d h =
    (authorize_iff encoding now ancestor action resource_type attributes).1 (
      descends-IsPermitted action resource_type attributes i d
        ((authorize_iff encoding now grant action resource_type attributes).0 h))
