-- ===== src/Authorization/Grants.antt =====
-- backend/src/bridle/agent/runtime/authorization.py: the records of a grant.
use bridle.Prelude.{List, Option, ℕ, String, Eq, string_eq}
use bridle.Prelude.Json.{Json}

pub data AgentRole : Type 0 where
  coordinator project_mapper implementer verifier reviewer : AgentRole

pub record AgentIdentity : Type 0 where
  pub principal_id : String
  pub role : AgentRole
  pub project_id : String
  pub session_id : Option String
  pub run_id : Option String
  pub owner_id : Option String
  pub agent_id : Option String

pub record ResourceScope : Type 0 where
  pub resource_type : String
  pub actions : List String
  pub attributes : List (String × String)
  pub effect : String

pub record ToolGrant : Type 0 where
  pub tool_id : String
  pub actions : List String

pub record SkillGrant : Type 0 where
  pub skill_id : String
  pub submodules : List String

-- A count of the budget, which may be negative until it is checked.
pub data ℤ : Type 0 where
  pos : ℕ → ℤ
  negsuc : ℕ → ℤ

-- A number of seconds. A finite one that is not negative is kept as the bit pattern of its double,
-- whose order is the order of the doubles.
pub data Seconds : Type 0 where
  finite : ℕ → Seconds
  negative infinite nan : Seconds

pub record BudgetGrant : Type 0 where
  pub max_provider_calls : ℤ
  pub max_tool_calls : ℤ
  pub max_wall_seconds : Seconds

-- A token has an identity of its own and keeps its parent for good.
pub data RevocationToken : Type 0 where
  root : ℕ → RevocationToken
  child : RevocationToken → ℕ → RevocationToken

pub record AgentGrant : Type 0 where
  pub policy_version : String
  pub identity : AgentIdentity
  pub resource_scopes : List ResourceScope
  pub tool_grants : List ToolGrant
  pub skill_grants : List SkillGrant
  pub budget_grant : BudgetGrant
  pub grant_id : String
  pub grant_hash : String
  pub parent_grant_hash : Option String
  pub revocation : RevocationToken

-- What `_stable_hash` takes from the standard library: `json.dumps` with its options, `sha256`
-- with `hexdigest`, and the texts of an integer and of a float.
pub record Encoding : Type 0 where
  pub dumps : Json → String
  pub hexdigest : String → String
  pub int_text : ℤ → String
  pub float_text : Seconds → String
  -- `digest[:20]`
  pub short : String → String

unfoldable pub string_discrete : Discrete String
unfolding string_eq
string_discrete = string_eq.dec

unfoldable pub ResourceScope-discrete : Discrete ResourceScope
unfolding string_discrete
ResourceScope-discrete = hlevel string_discrete

instance abbrev pub scope_eq : Eq ResourceScope
scope_eq = record { dec = ResourceScope-discrete }

unfoldable pub ToolGrant-discrete : Discrete ToolGrant
unfolding string_discrete
ToolGrant-discrete = hlevel string_discrete

instance abbrev pub tool_eq : Eq ToolGrant
tool_eq = record { dec = ToolGrant-discrete }

unfoldable pub SkillGrant-discrete : Discrete SkillGrant
unfolding string_discrete
SkillGrant-discrete = hlevel string_discrete

instance abbrev pub skill_eq : Eq SkillGrant
skill_eq = record { dec = SkillGrant-discrete }
