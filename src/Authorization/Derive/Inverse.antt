-- ===== src/Authorization/Derive/Inverse.antt =====
-- What a grant that `_build_grant` or `derive` returned was made of.
use bridle.Authorization.Normalize.{
  normalize_tool_grants, normalize_skill_grants, normalize_budget, validate_identity,
}
use bridle.Prelude.{
  here, there, ◌∙◌, List, [], ◌∷◌, some, true, false, Option, refl, Bool, ℕ, String, ◌≡◌, not,
  arith, In, ap, is_blank, ◌==◌, eq-of-==, string_eq, option_eq, false_of_not,
}
use mathlib.Core.Path.{subst}
use bridle.Errors.{
  ◌>>◌, ◌>>=◌, ok, raise, Result, require, require-eq-ok, >>=-eq-ok, ok-injective, Error,
  value_error,
}
use bridle.Authorization.Grants.{
  AgentGrant, AgentIdentity, Encoding, ResourceScope, ToolGrant, SkillGrant, BudgetGrant,
  RevocationToken, child,
}
use bridle.Authorization.Tokens.{Tokens, revoked}
use bridle.Authorization.Decide.{build_grant, normalize_resource_scopes, grant_of}
use bridle.Authorization.Derive.{
  derive, check_each, check_scope, check_tool, check_skill, budget_contains,
}

-- Inversion of a test that raises, in front of more.
pub >>-eq-ok {ℓ} :
    {A : Type ℓ} (test : Result (Unit {0})) (m : Result A) {a : A}
    → (test >> m) ≡ ok a
    → (test ≡ ok tt) × (m ≡ ok a)
>>-eq-ok (ok tt) m h = (refl, h)
>>-eq-ok (raise e) m h = absurd (ground arith)

pub require-true : (test : Bool) (e : Error) → require test e ≡ ok tt → test ≡ true
require-true true e h = refl
require-true false e h = absurd (ground arith)

pub check_each-In {ℓ} :
    {A : Type ℓ} (check : A → Result (Unit {0})) {x : A} (xs : List A)
    → check_each check xs ≡ ok tt
    → In x xs
    → check x ≡ ok tt
unfolding check_each
check_each-In check [] h m = elim m [ ]
check_each-In check (y ∷ ys) h (here e) = ap check e ∙ (>>-eq-ok (check y) _ h).0
check_each-In check (y ∷ ys) h (there m) = check_each-In check ys (>>-eq-ok (check y) _ h).1 m

pub record IsBuilt (encoding : Encoding) (policy_version : String) (identity : AgentIdentity)
    (scopes : List ResourceScope) (tools : List ToolGrant) (skills : List SkillGrant)
    (budget : BudgetGrant) (revocation : RevocationToken) (grant : AgentGrant) : Type 0 where
  pub same_policy : grant.policy_version ≡ policy_version
  pub same_identity : grant.identity ≡ identity
  pub scopes_normal : normalize_resource_scopes encoding scopes ≡ ok grant.resource_scopes
  pub tools_normal : normalize_tool_grants tools ≡ ok grant.tool_grants
  pub skills_normal : normalize_skill_grants skills ≡ ok grant.skill_grants
  pub budget_normal : normalize_budget budget ≡ ok grant.budget_grant
  pub same_token : grant.revocation ≡ revocation

module _ (encoding : Encoding) where
  grant_of-IsBuilt :
      (policy_version : String) (identity : AgentIdentity) (scopes : List ResourceScope)
      (tools : List ToolGrant) (skills : List SkillGrant) (budget : BudgetGrant)
      (parent_hash : Option String) (revocation : RevocationToken) (ss : List ResourceScope)
      (ts : List ToolGrant) (ks : List SkillGrant) (b : BudgetGrant)
      → normalize_resource_scopes encoding scopes ≡ ok ss
      → normalize_tool_grants tools ≡ ok ts
      → normalize_skill_grants skills ≡ ok ks
      → normalize_budget budget ≡ ok b
      → IsBuilt encoding policy_version identity scopes tools skills budget revocation
          (grant_of encoding policy_version identity parent_hash revocation ss ts ks b)
  unfolding grant_of
  grant_of-IsBuilt policy_version identity scopes tools skills budget parent_hash revocation ss ts
        ks b p q r s =
      record {
        same_policy = refl;
        same_identity = refl;
        scopes_normal = p;
        tools_normal = q;
        skills_normal = r;
        budget_normal = s;
        same_token = refl;
      }

  pub build_grant-IsBuilt :
      (policy_version : String) (identity : AgentIdentity) (scopes : List ResourceScope)
      (tools : List ToolGrant) (skills : List SkillGrant) (budget : BudgetGrant)
      (parent_hash : Option String) (revocation : RevocationToken) (grant : AgentGrant)
      → build_grant encoding policy_version identity scopes tools skills budget parent_hash
          revocation
        ≡ ok grant
      → IsBuilt encoding policy_version identity scopes tools skills budget revocation grant
  unfolding build_grant
  build_grant-IsBuilt policy_version identity scopes tools skills budget parent_hash revocation
        grant h =
      let made = grant_of encoding policy_version identity parent_hash revocation in
      let (_, h1) =
        >>-eq-ok (require (not (is_blank policy_version)) (value_error "invalid_policy_version")) _
          h in
      let (_, h2) = >>-eq-ok (validate_identity identity) _ h1 in
      let (ss, p, h3) =
        >>=-eq-ok (normalize_resource_scopes encoding scopes)
          (λ ss. normalize_tool_grants tools >>= λ ts. normalize_skill_grants skills >>= λ ks.
            normalize_budget budget >>= λ b. ok (made ss ts ks b))
          h2 in
      let (ts, q, h4) =
        >>=-eq-ok (normalize_tool_grants tools)
          (λ ts. normalize_skill_grants skills >>= λ ks.
            normalize_budget budget >>= λ b. ok (made ss ts ks b))
          h3 in
      let (ks, r, h5) =
        >>=-eq-ok (normalize_skill_grants skills)
          (λ ks. normalize_budget budget >>= λ b. ok (made ss ts ks b)) h4 in
      let (b, s, done) = >>=-eq-ok (normalize_budget budget) (λ b. ok (made ss ts ks b)) h5 in
      subst (IsBuilt encoding policy_version identity scopes tools skills budget revocation)
        (ok-injective (made ss ts ks b) grant done)
        (grant_of-IsBuilt policy_version identity scopes tools skills budget parent_hash revocation
          ss ts ks b p q r s)

-- What `derive` checked of its arguments, and what it built.
pub record IsDerived (encoding : Encoding) (tokens : Tokens) (marker : ℕ) (parent : AgentGrant)
    (grant : AgentGrant) : Type 0 where
  pub given_scopes : List ResourceScope
  pub scopes : List ResourceScope
  pub given_tools : List ToolGrant
  pub tools : List ToolGrant
  pub given_skills : List SkillGrant
  pub skills : List SkillGrant
  pub given_budget : BudgetGrant
  pub budget : BudgetGrant
  pub identity : AgentIdentity
  pub unrevoked : revoked tokens parent.revocation ≡ false
  pub project : identity.project_id ≡ parent.identity.project_id
  pub session : identity.session_id ≡ parent.identity.session_id
  pub scopes_normal : normalize_resource_scopes encoding given_scopes ≡ ok scopes
  pub tools_normal : normalize_tool_grants given_tools ≡ ok tools
  pub skills_normal : normalize_skill_grants given_skills ≡ ok skills
  pub budget_normal : normalize_budget given_budget ≡ ok budget
  pub scopes_checked : check_each (check_scope parent.resource_scopes) scopes ≡ ok tt
  pub tools_checked : check_each (check_tool parent.tool_grants) tools ≡ ok tt
  pub skills_checked : check_each (check_skill parent.skill_grants) skills ≡ ok tt
  pub budget_checked : budget_contains parent.budget_grant budget ≡ true
  pub built :
      IsBuilt encoding parent.policy_version identity scopes tools skills budget
        (child parent.revocation marker)
        grant

pub derive-IsDerived :
    (encoding : Encoding) (tokens : Tokens) (marker : ℕ) (parent : AgentGrant)
    (identity : AgentIdentity) (scopes : List ResourceScope) (tools : List ToolGrant)
    (skills : List SkillGrant) (budget : BudgetGrant) (grant : AgentGrant)
    → derive encoding tokens marker parent identity scopes tools skills budget ≡ ok grant
    → IsDerived encoding tokens marker parent grant
unfolding derive
derive-IsDerived encoding tokens marker parent identity scopes tools skills budget grant h =
    let escalation = value_error "scope_escalation" in
    let (a, h1) =
      require-eq-ok (not (revoked tokens parent.revocation)) (value_error "grant_revoked") _ h in
    let (_, h2) = >>-eq-ok (validate_identity identity) _ h1 in
    let (b, h3) =
      require-eq-ok (identity.project_id == parent.identity.project_id) escalation _ h2 in
    let (c, h4) =
      require-eq-ok (identity.session_id == parent.identity.session_id) escalation _ h3 in
    let last =
      λ (ss : List ResourceScope) (ts : List ToolGrant) (ks : List SkillGrant) (b : BudgetGrant).
        check_each (check_scope parent.resource_scopes) ss
        >> (check_each (check_tool parent.tool_grants) ts
            >> (check_each (check_skill parent.skill_grants) ks
                >> (require (budget_contains parent.budget_grant b) escalation
                    >> build_grant encoding parent.policy_version identity ss ts ks b
                        (some parent.grant_hash) (child parent.revocation marker)))) in
    let (ss, p, h5) =
      >>=-eq-ok (normalize_resource_scopes encoding scopes)
        (λ ss. normalize_tool_grants tools >>= λ ts.
          normalize_skill_grants skills >>= λ ks. normalize_budget budget >>= λ b. last ss ts ks b)
        h4 in
    let (ts, q, h6) =
      >>=-eq-ok (normalize_tool_grants tools)
        (λ ts.
          normalize_skill_grants skills >>= λ ks. normalize_budget budget >>= λ b. last ss ts ks b)
        h5 in
    let (ks, r, h7) =
      >>=-eq-ok (normalize_skill_grants skills)
        (λ ks. normalize_budget budget >>= λ b. last ss ts ks b) h6 in
    let (bb, s, h8) = >>=-eq-ok (normalize_budget budget) (λ b. last ss ts ks b) h7 in
    let (d, h9) = >>-eq-ok (check_each (check_scope parent.resource_scopes) ss) _ h8 in
    let (e, h10) = >>-eq-ok (check_each (check_tool parent.tool_grants) ts) _ h9 in
    let (f, h11) = >>-eq-ok (check_each (check_skill parent.skill_grants) ks) _ h10 in
    let (g, done) = require-eq-ok (budget_contains parent.budget_grant bb) escalation _ h11 in
    record {
      given_scopes = scopes;
      scopes = ss;
      given_tools = tools;
      tools = ts;
      given_skills = skills;
      skills = ks;
      given_budget = budget;
      budget = bb;
      identity = identity;
      unrevoked = false_of_not (revoked tokens parent.revocation) a;
      project = eq-of-== identity.project_id parent.identity.project_id b;
      session = eq-of-== identity.session_id parent.identity.session_id c;
      scopes_normal = p;
      tools_normal = q;
      skills_normal = r;
      budget_normal = s;
      scopes_checked = d;
      tools_checked = e;
      skills_checked = f;
      budget_checked = g;
      built =
          build_grant-IsBuilt encoding parent.policy_version identity ss ts ks bb
            (some parent.grant_hash) (child parent.revocation marker) grant done;
    }
