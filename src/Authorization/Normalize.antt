-- ===== src/Authorization/Normalize.antt =====
-- backend/src/bridle/agent/runtime/authorization.py: the normalization of the parts of a grant.
pub mod Parts
pub mod Scopes
use bridle.Prelude.{
  ◌∙◌, List, [], ◌∷◌, ◌++◌, none, some, true, false, Option, zero, suc, inl, inr, refl, Bool, ℕ,
  String, Eq, string_eq, if◌then◌else◌, contains, string_lt, sorted, not, ◌==◌, distinct, ◌||◌,
  is_blank, any, ◌&&◌, strip, map,
}
use bridle.Prelude.Json.{Json, Items, Fields}
use bridle.Errors.{◌>>◌, ◌>>=◌, ok, raise, Result, require, value_error}
use bridle.Authorization.Paths.{normalize_relative_path}
use Prim.Native.String.{◌++◌ as text_append}
use bridle.Authorization.Grants.{
  tool_eq, skill_eq, pos, negsuc, finite, negative, infinite, nan, ResourceScope, SkillGrant,
  ToolGrant, ℤ, Seconds, AgentIdentity, BudgetGrant,
}

-- `frozenset(xs)`, in the order of `sorted`.
unfoldable pub frozenset : List String → List String
frozenset xs = sorted string_lt (distinct xs)

-- The order of a pair of texts, and of a text before a tuple of texts.
abbrev pub pair_lt : String × String → String × String → Bool
pair_lt (a, b) (c, d) = string_lt a c || (a == c && string_lt b d)

unfoldable pub tuple_lt : List String → List String → Bool
tuple_lt xs [] = false
tuple_lt [] (y ∷ ys) = true
tuple_lt (x ∷ xs) (y ∷ ys) = string_lt x y || (x == y && tuple_lt xs ys)

abbrev pub known_resource_types : List String
known_resource_types =
    "tool" ∷ "skill" ∷ "workspace_path" ∷ "candidate" ∷ "test_command" ∷ "map_seed" ∷ "map_revision"
    ∷ "plan_operation" ∷ "agent_run" ∷ "network" ∷ "provider_budget" ∷ "tool_budget" ∷ "time_budget"
    ∷ []

abbrev pub no_strings : List String → Bool
no_strings [] = true
no_strings (x ∷ xs) = false

-- A set comprehension or a loop over items of which any may raise.
unfoldable pub traverse {ℓ κ} :
    {A : Type ℓ} {B : Type κ} → (A → Result B) → List A → Result (List B)
traverse f [] = ok []
traverse f (x ∷ xs) = do y ← f x; ys ← traverse f xs; ok (y ∷ ys)

abbrev pub normalize_value : String → String → Result String
normalize_value key value = if key == "path" then normalize_relative_path value else ok value

-- The loop of `_normalize_scope` over the attributes, with the keys that it has seen.
unfoldable pub normalize_entries :
    List String → List (String × String) → Result (List (String × String))
normalize_entries keys [] = ok []
normalize_entries keys ((key, value) ∷ entries) = do
  require (not (is_blank key)) (value_error "invalid_attribute")
  require (not (contains keys key)) (value_error "duplicate_attribute")
  normalized_value ← normalize_value key value
  rest ← normalize_entries (key ∷ keys) entries
  ok ((key, normalized_value) ∷ rest)

unfoldable pub normalize_scope : ResourceScope → Result ResourceScope
normalize_scope scope = do
  require (contains ("allow" ∷ "deny" ∷ []) scope.effect) (value_error "invalid_effect")
  require (contains known_resource_types scope.resource_type) (value_error "unknown_resource")
  require (not (no_strings scope.actions || any is_blank scope.actions))
      (value_error "invalid_action")
  attributes ← normalize_entries [] scope.attributes
  ok record {
    resource_type = scope.resource_type;
    actions = frozenset (map strip scope.actions);
    attributes = sorted pair_lt attributes;
    effect = scope.effect;
  }

unfoldable pub normalize_tool : ToolGrant → Result ToolGrant
normalize_tool grant = do
  require (not (is_blank grant.tool_id)) (value_error "invalid_tool_grant")
  require (not (no_strings grant.actions || any is_blank grant.actions))
      (value_error "invalid_tool_grant")
  ok record { tool_id = strip grant.tool_id; actions = frozenset (map strip grant.actions) }

unfoldable pub normalize_skill : SkillGrant → Result SkillGrant
normalize_skill grant = do
  require (not (is_blank grant.skill_id)) (value_error "invalid_skill_grant")
  require (not (any is_blank grant.submodules)) (value_error "invalid_skill_grant")
  ok record { skill_id = strip grant.skill_id; submodules = frozenset (map strip grant.submodules) }

abbrev pub tool_lt : ToolGrant → ToolGrant → Bool
tool_lt a b =
    tuple_lt (a.tool_id ∷ sorted string_lt a.actions) (b.tool_id ∷ sorted string_lt b.actions)

abbrev pub skill_lt : SkillGrant → SkillGrant → Bool
skill_lt a b =
    tuple_lt (a.skill_id ∷ sorted string_lt a.submodules)
      (b.skill_id ∷ sorted string_lt b.submodules)

unfoldable pub normalize_tool_grants : List ToolGrant → Result (List ToolGrant)
normalize_tool_grants grants = do
  normalized ← traverse normalize_tool grants
  ok (sorted tool_lt (distinct normalized))

unfoldable pub normalize_skill_grants : List SkillGrant → Result (List SkillGrant)
normalize_skill_grants grants = do
  normalized ← traverse normalize_skill grants
  ok (sorted skill_lt (distinct normalized))

-- `value < 0` of an integer and of a float, and `math.isfinite`.
abbrev pub is_negative : ℤ → Bool
is_negative (pos n) = false
is_negative (negsuc n) = true

abbrev pub is_duration : Seconds → Bool
is_duration (finite bits) = true
is_duration negative = false
is_duration infinite = false
is_duration nan = false

unfoldable pub normalize_budget : BudgetGrant → Result BudgetGrant
normalize_budget budget = do
  require (not (is_negative budget.max_provider_calls)) (value_error "invalid_budget")
  require (not (is_negative budget.max_tool_calls)) (value_error "invalid_budget")
  require (is_duration budget.max_wall_seconds) (value_error "invalid_budget")
  ok budget

abbrev pub is_unset_or_full : Option String → Bool
is_unset_or_full none = true
is_unset_or_full (some value) = not (is_blank value)

unfoldable pub validate_identity : AgentIdentity → Result (Unit {0})
validate_identity identity = do
  require (not (is_blank identity.principal_id)) (value_error "invalid_identity")
  require (not (is_blank identity.project_id)) (value_error "invalid_identity")
  require (is_unset_or_full identity.session_id) (value_error "invalid_identity")
  require (is_unset_or_full identity.run_id) (value_error "invalid_identity")
  require (is_unset_or_full identity.owner_id) (value_error "invalid_identity")
  require (is_unset_or_full identity.agent_id) (value_error "invalid_identity")
  ok tt
