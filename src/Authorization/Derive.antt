-- ===== src/Authorization/Derive.antt =====
-- backend/src/bridle/agent/runtime/authorization.py: `derive`, and the containment of scopes, tools,
-- skills and budgets that it checks.
pub mod Matching
pub mod Budgets
pub mod Within
pub mod Bounds
pub mod Chain
pub mod Escalation
pub mod Inverse
use bridle.Authorization.Normalize.{
  validate_identity, normalize_tool_grants, normalize_skill_grants, normalize_budget,
}
use bridle.Prelude.{
  ◌∙◌, List, [], ◌∷◌, ◌++◌, none, some, true, false, Option, zero, suc, inl, inr, refl, Bool, ℕ,
  String, dict_get, subset, if◌then◌else◌, not, keep, leb, ◌&&◌, ◌==◌, dict, string_eq, map, ◌||◌,
  intersects, any, option_eq,
}
use bridle.Errors.{◌>>◌, ◌>>=◌, ok, raise, Result, require, value_error}
use bridle.Authorization.Paths.{path_contains}
use bridle.Authorization.Grants.{
  AgentIdentity, ResourceScope, ToolGrant, SkillGrant, BudgetGrant, AgentGrant, Encoding, ℤ, pos,
  negsuc, Seconds, finite, negative, infinite, nan, child,
}
use bridle.Authorization.Tokens.{Tokens, revoked}
use bridle.Authorization.Decide.{entries_fit, build_grant, normalize_resource_scopes}

unfoldable pub scope_contains : ResourceScope → ResourceScope → Bool
scope_contains parent child_scope =
    if not (parent.resource_type == child_scope.resource_type)
    then false
    else if not (subset child_scope.actions parent.actions)
    then false
    else entries_fit (dict child_scope.attributes) (dict parent.attributes)

-- Two values of one key that a request may both meet.
abbrev pub values_overlap : String → String → Option String → Bool
values_overlap key left_value none = true
values_overlap key left_value (some right_value) =
    if key == "path"
    then path_contains left_value right_value || path_contains right_value left_value
    else left_value == right_value

-- The loop of `_scopes_overlap` over the keys that both sides have.
unfoldable pub entries_overlap : List (String × String) → List (String × String) → Bool
entries_overlap right [] = true
entries_overlap right ((key, left_value) ∷ entries) =
    values_overlap key left_value (dict_get right key) && entries_overlap right entries

unfoldable pub scopes_overlap : ResourceScope → ResourceScope → Bool
scopes_overlap left right =
    if not (left.resource_type == right.resource_type)
    then false
    else if not (intersects left.actions right.actions)
    then false
    else entries_overlap (dict right.attributes) (dict left.attributes)

-- `0 <= child <= parent`
abbrev pub within : ℤ → ℤ → Bool
within (pos a) (pos b) = leb a b
within (pos a) (negsuc b) = false
within (negsuc a) b = false

abbrev pub within_seconds : Seconds → Seconds → Bool
within_seconds (finite a) (finite b) = leb a b
within_seconds (finite a) infinite = true
within_seconds (finite a) negative = false
within_seconds (finite a) nan = false
within_seconds infinite infinite = true
within_seconds infinite (finite b) = false
within_seconds infinite negative = false
within_seconds infinite nan = false
within_seconds negative b = false
within_seconds nan b = false

unfoldable pub budget_contains : BudgetGrant → BudgetGrant → Bool
budget_contains parent child_budget =
    within child_budget.max_provider_calls parent.max_provider_calls
    && within child_budget.max_tool_calls parent.max_tool_calls
    && within_seconds child_budget.max_wall_seconds parent.max_wall_seconds

-- A loop that raises at the first item that fails.
unfoldable pub check_each {ℓ} : {A : Type ℓ} → (A → Result (Unit {0})) → List A → Result (Unit {0})
check_each check [] = ok tt
check_each check (x ∷ xs) = check x >> check_each check xs

abbrev pub scope_escalation : Bool → Result (Unit {0})
scope_escalation fine = require fine (value_error "scope_escalation")

unfoldable pub check_scope : List ResourceScope → ResourceScope → Result (Unit {0})
check_scope parent_scopes child_scope =
    let parent_allows = keep (λ scope. scope.effect == "allow") parent_scopes in
    let parent_denies = keep (λ scope. scope.effect == "deny") parent_scopes in
    if child_scope.effect == "deny"
    then ok tt
    else scope_escalation
        (any (λ parent_scope. scope_contains parent_scope child_scope) parent_allows)
      >> scope_escalation
          (not (any (λ parent_deny. scopes_overlap parent_deny child_scope) parent_denies))

abbrev pub tool_within : ToolGrant → Option ToolGrant → Bool
tool_within child_tool none = false
tool_within child_tool (some parent_tool) = subset child_tool.actions parent_tool.actions

unfoldable pub check_tool : List ToolGrant → ToolGrant → Result (Unit {0})
check_tool parent_grants child_tool = scope_escalation (
    tool_within child_tool (
      dict_get (dict (map (λ (grant : ToolGrant). (grant.tool_id, grant)) parent_grants))
        child_tool.tool_id))

abbrev pub skill_within : SkillGrant → Option SkillGrant → Bool
skill_within child_skill none = false
skill_within child_skill (some parent_skill) = subset child_skill.submodules parent_skill.submodules

unfoldable pub check_skill : List SkillGrant → SkillGrant → Result (Unit {0})
check_skill parent_grants child_skill = scope_escalation (
    skill_within child_skill (
      dict_get (dict (map (λ (grant : SkillGrant). (grant.skill_id, grant)) parent_grants))
        child_skill.skill_id))

module _ (encoding : Encoding) where
  -- `marker` is the identity of the token that `child()` makes.
  unfoldable pub derive :
      Tokens
      → ℕ
      → AgentGrant
      → AgentIdentity
      → List ResourceScope
      → List ToolGrant
      → List SkillGrant
      → BudgetGrant
      → Result AgentGrant
  derive tokens marker parent identity resource_scopes tool_grants skill_grants budget_grant = do
    require (not (revoked tokens parent.revocation)) (value_error "grant_revoked")
    validate_identity identity
    scope_escalation (identity.project_id == parent.identity.project_id)
    scope_escalation (identity.session_id == parent.identity.session_id)
    normalized_scopes ← normalize_resource_scopes encoding resource_scopes
    normalized_tools ← normalize_tool_grants tool_grants
    normalized_skills ← normalize_skill_grants skill_grants
    normalized_budget ← normalize_budget budget_grant
    check_each (check_scope parent.resource_scopes) normalized_scopes
    check_each (check_tool parent.tool_grants) normalized_tools
    check_each (check_skill parent.skill_grants) normalized_skills
    scope_escalation (budget_contains parent.budget_grant normalized_budget)
    build_grant encoding parent.policy_version identity normalized_scopes normalized_tools
        normalized_skills normalized_budget (some parent.grant_hash)
        (child parent.revocation marker)
