-- ===== src/Authorization/Derive/Escalation.antt =====
-- The requests that a derived grant allows, beside those of the grants that it descends from.
use bridle.Authorization.Normalize.Scopes.{In-normalize_resource_scopes, normal-IsFunctional}
use bridle.Prelude.{
  ◌∙◌, List, none, true, false, inl, inr, ℕ, String, In, ◌≡◌, string_eq, IsFunctional, ◌==◌, ap,
  any, keep, any-In, In-keep, false_of_not, eq-of-==, Bool-cases, sym, In-any, keep-In, eq_self,
}
use mathlib.Core.Bool.{true≢false}
use bridle.Errors.{ok, require, value_error}
use bridle.Authorization.Grants.{
  AgentGrant, AgentIdentity, Encoding, ResourceScope, ToolGrant, SkillGrant, BudgetGrant,
  RevocationToken,
}
use bridle.Authorization.Tokens.{Tokens}
use bridle.Authorization.Decide.{resolve}
use bridle.Authorization.Derive.{derive, check_scope, scope_contains, scopes_overlap}
use bridle.Authorization.Derive.Inverse.{
  IsBuilt, build_grant-IsBuilt, derive-IsDerived, >>-eq-ok, require-true,
}

-- A grant that `resolve` or `derive` returned, whatever the state of the tokens then was.
pub data Issued (encoding : Encoding) : AgentGrant → Type 0 where
  resolved :
      (marker : ℕ) (identity : AgentIdentity) (policy_version : String)
      (scopes : List ResourceScope) (tools : List ToolGrant) (skills : List SkillGrant)
      (budget : BudgetGrant) {grant : AgentGrant}
      → resolve encoding marker identity policy_version scopes tools skills budget ≡ ok grant
      → Issued encoding grant
  derived :
      {parent : AgentGrant} (tokens : Tokens) (marker : ℕ) (identity : AgentIdentity)
      (scopes : List ResourceScope) (tools : List ToolGrant) (skills : List SkillGrant)
      (budget : BudgetGrant) {grant : AgentGrant}
      → Issued encoding parent
      → derive encoding tokens marker parent identity scopes tools skills budget ≡ ok grant
      → Issued encoding grant

-- A chain of derivations from one grant to another.
pub data Descends (encoding : Encoding) (ancestor : AgentGrant) : AgentGrant → Type 0 where
  itself : Descends encoding ancestor ancestor
  step :
      {parent : AgentGrant} (tokens : Tokens) (marker : ℕ) (identity : AgentIdentity)
      (scopes : List ResourceScope) (tools : List ToolGrant) (skills : List SkillGrant)
      (budget : BudgetGrant) {grant : AgentGrant}
      → Descends encoding ancestor parent
      → derive encoding tokens marker parent identity scopes tools skills budget ≡ ok grant
      → Descends encoding ancestor grant

-- The keys of a scope of a grant are distinct.
abbrev pub HasDistinctKeys : AgentGrant → Type 0
HasDistinctKeys grant =
    (scope : ResourceScope) → In scope grant.resource_scopes → IsFunctional scope.attributes

built-HasDistinctKeys :
    {encoding : Encoding} {policy : String} {identity : AgentIdentity} {scopes : List ResourceScope}
    {tools : List ToolGrant} {skills : List SkillGrant} {budget : BudgetGrant}
    {token : RevocationToken} {grant : AgentGrant}
    → IsBuilt encoding policy identity scopes tools skills budget token grant
    → HasDistinctKeys grant
built-HasDistinctKeys {encoding} {scopes = scopes} {grant = grant} b scope m =
    let (_, _, n) =
      In-normalize_resource_scopes encoding scopes grant.resource_scopes scope b.scopes_normal m in
    normal-IsFunctional n

pub Issued-HasDistinctKeys :
    {encoding : Encoding} {grant : AgentGrant} → Issued encoding grant → HasDistinctKeys grant
unfolding resolve
Issued-HasDistinctKeys {encoding}
      (resolved marker identity policy scopes tools skills budget {grant} h) =
    built-HasDistinctKeys
      (build_grant-IsBuilt encoding policy identity scopes tools skills budget none _ grant h)
Issued-HasDistinctKeys {encoding}
      (derived {parent} tokens marker identity scopes tools skills budget {grant} i h) =
    built-HasDistinctKeys
      (derive-IsDerived encoding tokens marker parent identity scopes tools skills budget grant
        h).built

-- A scope of the parent that contains a checked scope of the child, and no deny that overlaps it.
pub check_scope_sound :
    (scopes : List ResourceScope) (scope : ResourceScope)
    → check_scope scopes scope ≡ ok tt
    → scope.effect ≡ "allow"
    → ((parent : ResourceScope) × In parent scopes
        × (parent.effect ≡ "allow")
        × (scope_contains parent scope ≡ true))
      × ((deny : ResourceScope)
          → In deny scopes
          → deny.effect ≡ "deny"
          → scopes_overlap deny scope ≡ false)
unfolding check_scope string_eq
check_scope_sound scopes scope h allow =
    let allows = λ (s : ResourceScope). s.effect == "allow" in
    let denies = λ (s : ResourceScope). s.effect == "deny" in
    let contained = λ (s : ResourceScope). scope_contains s scope in
    let overlapping = λ (s : ResourceScope). scopes_overlap s scope in
    let other : (scope.effect == "deny") ≡ false = ap (λ t. t == "deny") allow in
    let (a, b) = >>-eq-ok (require (any contained (keep allows scopes)) _) _ (rw other at h) in
    let (parent, m, c) =
      any-In contained (keep allows scopes)
        (require-true (any contained (keep allows scopes)) _ a) in
    let (n, e) = In-keep allows scopes m in
    let none_overlaps =
      false_of_not (any overlapping (keep denies scopes))
        (require-true _ (value_error "scope_escalation") b) in
    (
      (parent, n, eq-of-== parent.effect "allow" e, c),
      λ deny k d. elim (Bool-cases (overlapping deny)) [
        | inr q ↦ q
        | inl q ↦ absurd (
            true≢false (
              sym (
                In-any overlapping (keep denies scopes)
                  (keep-In denies scopes k (ap (λ t. t == "deny") d ∙ eq_self {A = String} "deny"))
                  q)
              ∙ none_overlaps))
      ],
    )
