-- ===== src/Authorization/Examples.antt =====
-- A coordinator that delegates to an implementer, and runs of the authorization code on them.
mod Runs
use bridle.Authorization.Execute.Equivalence.{run_if_allowed, execute_authorized_lem}
use bridle.Authorization.Execute.{execute_authorized}
use bridle.Authorization.Paths.Stable.{normalize_again}
use bridle.Authorization.Paths.Order.{path_contains_iff}
use bridle.Authorization.Paths.Containment.{Begins, segments}
use bridle.Authorization.Drives.{drive_scope-unmatched}
use bridle.Authorization.Paths.{
  normalize_relative_path, normpath, norm_loop, norm_step, is_drive, path_contains,
}
use bridle.Authorization.Normalize.{
  traverse, normalize_scope, normalize_entries, frozenset, tuple_lt, normalize_tool,
  normalize_tool_grants, normalize_skill, normalize_skill_grants, normalize_budget,
  validate_identity,
}
use bridle.Authorization.Payload.{scope_payload}
use bridle.Authorization.Decide.Rules.{IsPermitted, authorize_iff}
use bridle.Authorization.Derive.Escalation.{Descends, Issued}
use bridle.Authorization.Derive.Within.{IsWithin, descends-IsWithin}
use bridle.Authorization.Derive.Chain.{no_escalation}
use bridle.Prelude.{
  here, here, there, ◌∙◌, List, [], ◌∷◌, ◌++◌, none, some, true, false, Option, zero, suc, inl, inr,
  refl, Bool, ℕ, String, ◌≡◌, ◌↔◌, avoids, replace_char, split, join, rstrip, lstrip, strip, any,
  distinct, sorted, insert_sorted, string_eq, nat_eq, all, keep, dict_from, dict_put, dict_get,
  option_eq, if◌then◌else◌,
}
use bridle.Errors.{ok, raise, Result, value_error}
use bridle.Authorization.Grants.{
  AgentGrant, AgentIdentity, Encoding, ResourceScope, ToolGrant, SkillGrant, BudgetGrant, pos,
  finite, coordinator, implementer, root, ResourceScope-discrete, ToolGrant-discrete,
  SkillGrant-discrete, string_discrete,
}
use bridle.Authorization.Tokens.{Tokens, revoked, walk}
use bridle.Authorization.Decide.{
  resolve, authorize, allowed, build_grant, grant_of, normalize_resource_scopes, entries_fit,
  authorize_active, decision, normalize_attributes, scope_matches_request, scope_sort_key,
}
use bridle.Authorization.Derive.{
  derive, check_each, check_scope, check_tool, check_skill, budget_contains, scope_contains,
  scopes_overlap, entries_overlap,
}

-- An encoding that keeps nothing: the decisions rest on none of it.
abbrev plain : Encoding
plain = record {
  dumps = λ _. "{}";
  hexdigest = λ s. s;
  int_text = λ _. "0";
  float_text = λ _. "0.0";
  short = λ s. s;
}

abbrev quiet : Tokens
quiet = record { event = λ _. false; pending_starts = λ _. 0 }

abbrev lead : AgentIdentity
lead = record {
  principal_id = "lead";
  role = coordinator;
  project_id = "p";
  session_id = some "s";
  run_id = none;
  owner_id = none;
  agent_id = none;
}

abbrev worker : AgentIdentity
worker = record {
  principal_id = "worker";
  role = implementer;
  project_id = "p";
  session_id = some "s";
  run_id = none;
  owner_id = none;
  agent_id = some "a";
}

abbrev scope : String → String → ResourceScope
scope effect path = record {
  resource_type = "workspace_path";
  actions = "read" ∷ [];
  attributes = ("path", path) ∷ [];
  effect = effect;
}

abbrev tool : ToolGrant
tool = record { tool_id = "grep"; actions = "execute" ∷ [] }

abbrev skill : SkillGrant
skill = record { skill_id = "review"; submodules = "diff" ∷ [] }

abbrev budget : ℕ → BudgetGrant
budget n = record {
  max_provider_calls = pos n;
  max_tool_calls = pos n;
  max_wall_seconds = finite n;
}

abbrev wide : List ResourceScope
wide = scope "allow" "src" ∷ scope "deny" "src/secret" ∷ []

abbrev narrow : List ResourceScope
narrow = scope "allow" "src/./app" ∷ []

abbrev blank_grant : AgentGrant
blank_grant = record {
  policy_version = "";
  identity = lead;
  resource_scopes = [];
  tool_grants = [];
  skill_grants = [];
  budget_grant = budget 0;
  grant_id = "";
  grant_hash = "";
  parent_grant_hash = none;
  revocation = root 0;
}

abbrev grant_or_blank : Result AgentGrant → AgentGrant
grant_or_blank (ok grant) = grant
grant_or_blank (raise e) = blank_grant

lead_grant : AgentGrant
unfolding resolve
lead_grant = grant_or_blank (resolve plain 1 lead "v1" wide (tool ∷ []) (skill ∷ []) (budget 9))

lead_resolved : resolve plain 1 lead "v1" wide (tool ∷ []) (skill ∷ []) (budget 9) ≡ ok lead_grant
unfolding lead_grant resolve build_grant grant_of normalize_resource_scopes traverse normalize_scope
    normalize_entries normalize_relative_path normpath norm_loop norm_step is_drive frozenset
    tuple_lt normalize_tool normalize_tool_grants normalize_skill normalize_skill_grants
    normalize_budget validate_identity avoids replace_char split join rstrip lstrip strip any
    distinct sorted insert_sorted string_eq nat_eq ResourceScope-discrete ToolGrant-discrete
    SkillGrant-discrete string_discrete scope_sort_key scope_payload option_eq
lead_resolved = refl

worker_grant : AgentGrant
unfolding derive
worker_grant =
    grant_or_blank
      (derive plain quiet 2 lead_grant worker narrow (tool ∷ []) (skill ∷ []) (budget 4))

worker_derived :
    derive plain quiet 2 lead_grant worker narrow (tool ∷ []) (skill ∷ []) (budget 4)
    ≡ ok worker_grant
unfolding worker_grant lead_grant resolve build_grant grant_of normalize_resource_scopes traverse
    normalize_scope normalize_entries normalize_relative_path normpath norm_loop norm_step is_drive
    frozenset tuple_lt normalize_tool normalize_tool_grants normalize_skill normalize_skill_grants
    normalize_budget validate_identity avoids replace_char split join rstrip lstrip strip any
    distinct sorted insert_sorted string_eq nat_eq ResourceScope-discrete ToolGrant-discrete
    SkillGrant-discrete string_discrete scope_sort_key scope_payload option_eq derive check_each
    check_scope check_tool check_skill budget_contains scope_contains scopes_overlap entries_fit
    entries_overlap revoked walk all keep dict_from dict_put dict_get path_contains
worker_derived = refl

lead_Issued : Issued plain lead_grant
lead_Issued = Issued.resolved 1 lead "v1" wide (tool ∷ []) (skill ∷ []) (budget 9) lead_resolved

worker_Descends : Descends plain lead_grant worker_grant
worker_Descends =
    Descends.step quiet 2 worker narrow (tool ∷ []) (skill ∷ []) (budget 4) Descends.itself
      worker_derived

abbrev in_app : Option (List (String × String))
in_app = some (("path", "src/app/main.py") ∷ [])

abbrev in_secret : Option (List (String × String))
in_secret = some (("path", "src/secret/key") ∷ [])

worker_reads :
    allowed quiet (authorize plain quiet worker_grant "read" "workspace_path" in_app) ≡ true
unfolding worker_grant lead_grant resolve build_grant grant_of normalize_resource_scopes traverse
    normalize_scope normalize_entries normalize_relative_path normpath norm_loop norm_step is_drive
    frozenset tuple_lt normalize_tool normalize_tool_grants normalize_skill normalize_skill_grants
    normalize_budget validate_identity avoids replace_char split join rstrip lstrip strip any
    distinct sorted insert_sorted string_eq nat_eq ResourceScope-discrete ToolGrant-discrete
    SkillGrant-discrete string_discrete scope_sort_key scope_payload option_eq derive check_each
    check_scope check_tool check_skill budget_contains scope_contains scopes_overlap entries_fit
    entries_overlap revoked walk all keep dict_from dict_put dict_get path_contains authorize
    authorize_active decision allowed normalize_attributes scope_matches_request
worker_reads = refl

-- The deny of the lead grant wins over its allow.
lead_denied :
    allowed quiet (authorize plain quiet lead_grant "read" "workspace_path" in_secret) ≡ false
unfolding lead_grant resolve build_grant grant_of normalize_resource_scopes traverse normalize_scope
    normalize_entries normalize_relative_path normpath norm_loop norm_step is_drive frozenset
    tuple_lt normalize_tool normalize_tool_grants normalize_skill normalize_skill_grants
    normalize_budget validate_identity avoids replace_char split join rstrip lstrip strip any
    distinct sorted insert_sorted string_eq nat_eq ResourceScope-discrete ToolGrant-discrete
    SkillGrant-discrete string_discrete scope_sort_key scope_payload option_eq derive check_each
    check_scope check_tool check_skill budget_contains scope_contains scopes_overlap entries_fit
    entries_overlap revoked walk all keep dict_from dict_put dict_get path_contains authorize
    authorize_active decision allowed normalize_attributes scope_matches_request
lead_denied = refl

no_escalation_example :
    allowed quiet (authorize plain quiet lead_grant "read" "workspace_path" in_app) ≡ true
no_escalation_example =
    no_escalation plain quiet "read" "workspace_path" in_app lead_Issued worker_Descends
      worker_reads

descends-IsWithin_example : IsWithin lead_grant worker_grant
descends-IsWithin_example = descends-IsWithin plain lead_Issued worker_Descends

authorize_iff_example :
    (allowed quiet (authorize plain quiet lead_grant "read" "workspace_path" in_secret) ≡ true)
    ↔ IsPermitted quiet lead_grant "read" "workspace_path" in_secret
authorize_iff_example = authorize_iff plain quiet lead_grant "read" "workspace_path" in_secret

path_contains_iff_example :
    (path_contains "./src" "src/a/../b.py" ≡ true) ↔ Begins (segments "src") (segments "src/b.py")
unfolding resolve build_grant grant_of normalize_resource_scopes traverse normalize_scope
    normalize_entries normalize_relative_path normpath norm_loop norm_step is_drive frozenset
    tuple_lt normalize_tool normalize_tool_grants normalize_skill normalize_skill_grants
    normalize_budget validate_identity avoids replace_char split join rstrip lstrip strip any
    distinct sorted insert_sorted string_eq nat_eq ResourceScope-discrete ToolGrant-discrete
    SkillGrant-discrete string_discrete scope_sort_key scope_payload option_eq
path_contains_iff_example = path_contains_iff "./src" "src/a/../b.py" refl refl

normalize_again_example :
    normalize_relative_path "C:/x"
    ≡ (if is_drive "C:/x" then raise (value_error "invalid_path") else ok "C:/x")
unfolding resolve build_grant grant_of normalize_resource_scopes traverse normalize_scope
    normalize_entries normalize_relative_path normpath norm_loop norm_step is_drive frozenset
    tuple_lt normalize_tool normalize_tool_grants normalize_skill normalize_skill_grants
    normalize_budget validate_identity avoids replace_char split join rstrip lstrip strip any
    distinct sorted insert_sorted string_eq nat_eq ResourceScope-discrete ToolGrant-discrete
    SkillGrant-discrete string_discrete scope_sort_key scope_payload option_eq
normalize_again_example = normalize_again "./C:/x" refl

drive_scope-unmatched_example :
    scope_matches_request "read" "workspace_path" (("path", "C:/x/key") ∷ []) (scope "deny" "C:/x")
    ≡ false
unfolding resolve build_grant grant_of normalize_resource_scopes traverse normalize_scope
    normalize_entries normalize_relative_path normpath norm_loop norm_step is_drive frozenset
    tuple_lt normalize_tool normalize_tool_grants normalize_skill normalize_skill_grants
    normalize_budget validate_identity avoids replace_char split join rstrip lstrip strip any
    distinct sorted insert_sorted string_eq nat_eq ResourceScope-discrete ToolGrant-discrete
    SkillGrant-discrete string_discrete scope_sort_key scope_payload option_eq
drive_scope-unmatched_example =
    drive_scope-unmatched "read" "workspace_path" (("path", "C:/x/key") ∷ []) (scope "deny" "C:/x")
      "./C:/x" refl refl (here refl)

abbrev launch : Tokens → Result ℕ × Tokens
launch tokens = (ok 7, tokens)

execute_authorized_lem_example :
    execute_authorized plain quiet worker_grant "read" "workspace_path" in_app launch
    ≡ run_if_allowed quiet
        (authorize plain quiet worker_grant "read" "workspace_path" in_app)
        launch
execute_authorized_lem_example =
    execute_authorized_lem plain quiet worker_grant "read" "workspace_path" in_app launch
