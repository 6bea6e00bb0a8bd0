-- ===== src/Authorization/Payload.antt =====
-- backend/src/bridle/agent/runtime/authorization.py: the payloads that a grant is hashed over.
use bridle.Prelude.{List, [], ◌∷◌, String, sorted, string_lt, string_eq}
use bridle.Prelude.Json.{Json, Items, num, str, arr, obj, nil, cons, end, field, of_option}
use bridle.Authorization.Grants.{
  AgentRole, AgentIdentity, ResourceScope, ToolGrant, SkillGrant, BudgetGrant, Encoding,
  coordinator, project_mapper, implementer, verifier, reviewer, scope_eq,
}

abbrev pub role_value : AgentRole → String
role_value coordinator = "coordinator"
role_value project_mapper = "project_mapper"
role_value implementer = "implementer"
role_value verifier = "verifier"
role_value reviewer = "reviewer"

abbrev pub strings : List String → Items
strings [] = nil
strings (s ∷ ss) = cons (str s) (strings ss)

abbrev pub pairs : List (String × String) → Items
pairs [] = nil
pairs ((k, v) ∷ kvs) = cons (arr (cons (str k) (cons (str v) nil))) (pairs kvs)

abbrev pub each {ℓ} : {A : Type ℓ} → (A → Json) → List A → Items
each f [] = nil
each f (x ∷ xs) = cons (f x) (each f xs)

unfoldable pub scope_payload : ResourceScope → Json
scope_payload scope = obj (
    field "resource_type" (str scope.resource_type) (
      field "actions" (arr (strings (sorted string_lt scope.actions))) (
        field "attributes" (arr (pairs scope.attributes)) (field "effect" (str scope.effect) end))))

abbrev pub tool_payload : ToolGrant → Json
tool_payload grant = obj (
    field "tool_id" (str grant.tool_id)
      (field "actions" (arr (strings (sorted string_lt grant.actions))) end))

abbrev pub skill_payload : SkillGrant → Json
skill_payload grant = obj (
    field "skill_id" (str grant.skill_id)
      (field "submodules" (arr (strings (sorted string_lt grant.submodules))) end))

abbrev pub identity_payload : AgentIdentity → Json
identity_payload identity = obj (
    field "principal_id" (str identity.principal_id) (
      field "role" (str (role_value identity.role)) (
        field "project_id" (str identity.project_id) (
          field "session_id" (of_option identity.session_id) (
            field "run_id" (of_option identity.run_id) (
              field "owner_id" (of_option identity.owner_id)
                (field "agent_id" (of_option identity.agent_id) end)))))))

pub budget_payload : Encoding → BudgetGrant → Json
budget_payload encoding budget = obj (
    field "max_provider_calls" (num (encoding.int_text budget.max_provider_calls)) (
      field "max_tool_calls" (num (encoding.int_text budget.max_tool_calls))
        (field "max_wall_seconds" (num (encoding.float_text budget.max_wall_seconds)) end)))
