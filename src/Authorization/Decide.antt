-- ===== src/Authorization/Decide.antt =====
-- backend/src/bridle/agent/runtime/authorization.py: `resolve` and `_build_grant`, and the decision
-- on a request by `authorize`.
pub mod Rules
use bridle.Authorization.Normalize.{
  traverse, normalize_scope, pair_lt, known_resource_types, validate_identity,
  normalize_tool_grants, normalize_skill_grants, normalize_budget,
}
use bridle.Authorization.Payload.{
  strings, pairs, each, scope_payload, tool_payload, skill_payload, identity_payload,
  budget_payload,
}
use bridle.Prelude.{
  ◌∙◌, List, [], ◌∷◌, ◌++◌, none, some, true, false, Option, zero, suc, inl, inr, refl, Bool, ℕ,
  String, ◌&&◌, keep, sorted, dict_get, if◌then◌else◌, not, string_lt, is_blank, ◌==◌, contains,
  string_eq, distinct, ◌||◌, dict, any,
}
use bridle.Prelude.Json.{
  Json, Items, Fields, null, num, str, arr, obj, nil, cons, end, field, of_option,
}
use bridle.Errors.{◌>>◌, ◌>>=◌, ok, raise, Result, require, value_error}
use bridle.Authorization.Paths.{path_contains}
use bridle.Authorization.Grants.{
  AgentRole, AgentIdentity, ResourceScope, ToolGrant, SkillGrant, BudgetGrant, AgentGrant, Encoding,
  RevocationToken, root, coordinator, project_mapper, implementer, verifier, reviewer, scope_eq,
}
use bridle.Authorization.Tokens.{Tokens, active, revoked}
use Prim.Native.String.{◌++◌ as text_append}

pub record AuthorizationDecision : Type 0 where
  pub allowed_flag : Bool
  pub reason_text : String
  pub decision_id : String
  pub revocation : RevocationToken

-- The properties `allowed` and `reason`, which read the token anew.
unfoldable pub allowed : Tokens → AuthorizationDecision → Bool
allowed tokens decision = decision.allowed_flag && not (revoked tokens decision.revocation)

unfoldable pub reason : Tokens → AuthorizationDecision → String
reason tokens decision =
    if decision.allowed_flag && revoked tokens decision.revocation
    then "grant_revoked"
    else decision.reason_text

-- `_normalize_attributes`
unfoldable pub normalize_attributes : Option (List (String × String)) → List (String × String)
normalize_attributes none = []
normalize_attributes (some items) = sorted pair_lt items

-- `actual is None`, the path test or the comparison of one attribute.
abbrev pub attribute_fits : String → String → Option String → Bool
attribute_fits key expected none = false
attribute_fits key expected (some actual) =
    if key == "path" then path_contains expected actual else actual == expected

-- The loops of `_scope_matches_request` and `_scope_contains` over the attributes of a scope.
unfoldable pub entries_fit : List (String × String) → List (String × String) → Bool
entries_fit given [] = true
entries_fit given ((key, expected) ∷ entries) =
    attribute_fits key expected (dict_get given key) && entries_fit given entries

unfoldable pub scope_matches_request :
    String → String → List (String × String) → ResourceScope → Bool
scope_matches_request action resource_type request_attributes scope =
    if not (scope.resource_type == resource_type) || not (contains scope.actions action)
    then false
    else entries_fit (dict request_attributes) scope.attributes

module _ (encoding : Encoding) where
  pub stable_hash : Json → String
  stable_hash payload = encoding.hexdigest (encoding.dumps payload)

  unfoldable pub scope_sort_key : ResourceScope → String
  scope_sort_key scope = encoding.dumps (scope_payload scope)

  unfoldable pub normalize_resource_scopes : List ResourceScope → Result (List ResourceScope)
  normalize_resource_scopes scopes = do
    normalized ← traverse normalize_scope scopes
    ok (sorted (λ a b. string_lt (scope_sort_key a) (scope_sort_key b)) (distinct normalized))

  pub grant_hash_of :
      String
      → AgentIdentity
      → List ResourceScope
      → List ToolGrant
      → List SkillGrant
      → BudgetGrant
      → Option String
      → String
  grant_hash_of policy_version identity scopes tools skills budget parent_grant_hash = stable_hash (
      obj (
        field "policy_version" (str policy_version) (
          field "identity" (identity_payload identity) (
            field "resource_scopes" (arr (each scope_payload scopes)) (
              field "tool_grants" (arr (each tool_payload tools)) (
                field "skill_grants" (arr (each skill_payload skills)) (
                  field "budget_grant" (budget_payload encoding budget)
                    (field "parent_grant_hash" (of_option parent_grant_hash) end))))))))

  -- The record that `_build_grant` returns.
  unfoldable pub grant_of :
      String
      → AgentIdentity
      → Option String
      → RevocationToken
      → List ResourceScope
      → List ToolGrant
      → List SkillGrant
      → BudgetGrant
      → AgentGrant
  grant_of policy_version identity parent_grant_hash revocation scopes tools skills budget =
      let grant_hash =
        grant_hash_of policy_version identity scopes tools skills budget parent_grant_hash in
      record {
        policy_version = policy_version;
        identity = identity;
        resource_scopes = scopes;
        tool_grants = tools;
        skill_grants = skills;
        budget_grant = budget;
        grant_id = text_append "grant-" (encoding.short grant_hash);
        grant_hash = grant_hash;
        parent_grant_hash = parent_grant_hash;
        revocation = revocation;
      }

  unfoldable pub build_grant :
      String
      → AgentIdentity
      → List ResourceScope
      → List ToolGrant
      → List SkillGrant
      → BudgetGrant
      → Option String
      → RevocationToken
      → Result AgentGrant
  build_grant policy_version identity resource_scopes tool_grants skill_grants budget_grant
        parent_grant_hash revocation =
      do
        require (not (is_blank policy_version)) (value_error "invalid_policy_version")
        validate_identity identity
        normalized_scopes ← normalize_resource_scopes resource_scopes
        normalized_tools ← normalize_tool_grants tool_grants
        normalized_skills ← normalize_skill_grants skill_grants
        normalized_budget ← normalize_budget budget_grant
        ok (
            grant_of policy_version identity parent_grant_hash revocation normalized_scopes
              normalized_tools normalized_skills normalized_budget)

  -- `marker` is the identity of the new token.
  unfoldable pub resolve :
      ℕ
      → AgentIdentity
      → String
      → List ResourceScope
      → List ToolGrant
      → List SkillGrant
      → BudgetGrant
      → Result AgentGrant
  resolve marker identity policy_version resource_scopes tool_grants skill_grants budget_grant =
      build_grant policy_version identity resource_scopes tool_grants skill_grants budget_grant none
        (root marker)

  unfoldable pub decision :
      AgentGrant
      → Bool
      → String
      → String
      → String
      → Option (List (String × String))
      → AuthorizationDecision
  decision grant is_allowed reason_text action resource_type attributes = record {
    allowed_flag = is_allowed;
    reason_text = reason_text;
    decision_id = text_append "decision-" (
        encoding.short (
          stable_hash (
            obj (
              field "grant_hash" (str grant.grant_hash) (
                field "allowed" (Json.bool is_allowed) (
                  field "reason" (str reason_text) (
                    field "action" (str action) (
                      field "resource_type" (str resource_type) (
                        field "attributes" (arr (pairs (normalize_attributes attributes)))
                          end)))))))));
    revocation = grant.revocation;
  }

  unfoldable pub authorize_active :
      AgentGrant → String → String → Option (List (String × String)) → AuthorizationDecision
  authorize_active grant action resource_type attributes =
      let request_attributes = normalize_attributes attributes in
      let matching =
        keep (scope_matches_request action resource_type request_attributes)
          grant.resource_scopes in
      if not (contains known_resource_types resource_type)
      then decision grant false "unknown_resource" action resource_type attributes
      else if any (λ scope. scope.effect == "deny") matching
      then decision grant false "explicit_deny" action resource_type (some request_attributes)
      else if any (λ scope. scope.effect == "allow") matching
      then decision grant true "allowed" action resource_type (some request_attributes)
      else decision grant false "default_deny" action resource_type (some request_attributes)

  unfoldable pub authorize :
      Tokens
      → AgentGrant
      → String
      → String
      → Option (List (String × String))
      → AuthorizationDecision
  authorize tokens grant action resource_type attributes =
      if active tokens grant.revocation
      then authorize_active grant action resource_type attributes
      else decision grant false "grant_revoked" action resource_type attributes
