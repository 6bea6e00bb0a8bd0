-- ===== src/Authorization/Derive/Within.antt =====
-- A grant within another: project, session, policy, tools, skills and budget.
use bridle.Authorization.Tokens.{Tokens}
use bridle.Prelude.{◌∙◌, none, true, refl, ℕ, String, ◌≡◌, ap, In, sym, map, strip, strip_again}
use mathlib.Core.Path.{subst}
use bridle.Authorization.Grants.{AgentGrant, AgentIdentity, Encoding}
use bridle.Authorization.Normalize.{frozenset}
use bridle.Authorization.Decide.{resolve}
use bridle.Authorization.Derive.{check_tool, check_skill, budget_contains}
use bridle.Authorization.Derive.Bounds.{
  HoldsTool, HoldsSkill, In-normalize_skill_grants, In-normalize_tool_grants,
  normalize_tool-inverse, normalize_skill-inverse, stripped_again, check_skill_sound,
  check_tool_sound,
}
use bridle.Authorization.Derive.Budgets.{budget_contains_trans, normalize_budget-inverse}
use bridle.Authorization.Derive.Inverse.{
  IsDerived, derive-IsDerived, build_grant-IsBuilt, check_each-In,
}
use bridle.Authorization.Derive.Escalation.{Issued, Descends, itself, step, derived, resolved}

-- All that a grant holds beside its scopes, another holds too.
pub record IsWithin (outer inner : AgentGrant) : Type 0 where
  pub policy : inner.policy_version ≡ outer.policy_version
  pub project : inner.identity.project_id ≡ outer.identity.project_id
  pub session : inner.identity.session_id ≡ outer.identity.session_id
  pub tools :
      (tool_id action : String) → HoldsTool inner tool_id action → HoldsTool outer tool_id action
  pub skills :
      (skill_id submodule : String)
      → HoldsSkill inner skill_id submodule
      → HoldsSkill outer skill_id submodule
  pub budget : budget_contains outer.budget_grant inner.budget_grant ≡ true

Issued-budget :
    {encoding : Encoding} {grant : AgentGrant}
    → Issued encoding grant
    → budget_contains grant.budget_grant grant.budget_grant ≡ true
unfolding resolve
Issued-budget {encoding} (resolved marker identity policy scopes tools skills budget {grant} h) =
    let b =
      build_grant-IsBuilt encoding policy identity scopes tools skills budget none _ grant h in
    (normalize_budget-inverse budget grant.budget_grant b.budget_normal).1
Issued-budget {encoding}
      (derived {parent} tokens marker identity scopes tools skills budget {grant} i h) =
    let d =
      derive-IsDerived encoding tokens marker parent identity scopes tools skills budget grant h in
    (normalize_budget-inverse d.budget grant.budget_grant d.built.budget_normal).1

derived-tool :
    {encoding : Encoding} {before : Tokens} {marker : ℕ} {parent grant : AgentGrant}
    (tool_id action : String)
    → IsDerived encoding before marker parent grant
    → HoldsTool grant tool_id action
    → HoldsTool parent tool_id action
derived-tool {encoding} {parent = parent} {grant} tool_id action d (third, m, same_id, acts) =
    let (second, n, g) =
      In-normalize_tool_grants d.tools grant.tool_grants third d.built.tools_normal m in
    let (first, _, f) = In-normalize_tool_grants d.given_tools d.tools second d.tools_normal n in
    let (id2, acts2) = normalize_tool-inverse first second f in
    let (id3, acts3) = normalize_tool-inverse second third g in
    let kept : In action second.actions = subst (In action) (sym acts2) (
      stripped_again first.actions
        (subst (λ l. In action (frozenset (map strip l))) acts2 (subst (In action) acts3 acts))) in
    let (held, k, held_id, held_acts) =
      check_tool_sound parent.tool_grants second action
        (check_each-In (check_tool parent.tool_grants) d.tools d.tools_checked n) kept in
    let again : third.tool_id ≡ second.tool_id =
      id3 ∙ ap strip id2 ∙ strip_again first.tool_id ∙ sym id2 in
    (held, k, held_id ∙ sym again ∙ same_id, held_acts)

derived-skill :
    {encoding : Encoding} {before : Tokens} {marker : ℕ} {parent grant : AgentGrant}
    (skill_id submodule : String)
    → IsDerived encoding before marker parent grant
    → HoldsSkill grant skill_id submodule
    → HoldsSkill parent skill_id submodule
derived-skill {encoding} {parent = parent} {grant} skill_id submodule d (third, m, same_id, acts) =
    let (second, n, g) =
      In-normalize_skill_grants d.skills grant.skill_grants third d.built.skills_normal m in
    let (first, _, f) =
      In-normalize_skill_grants d.given_skills d.skills second d.skills_normal n in
    let (id2, acts2) = normalize_skill-inverse first second f in
    let (id3, acts3) = normalize_skill-inverse second third g in
    let kept : In submodule second.submodules = subst (In submodule) (sym acts2) (
      stripped_again first.submodules (
        subst (λ l. In submodule (frozenset (map strip l))) acts2
          (subst (In submodule) acts3 acts))) in
    let (held, k, held_id, held_acts) =
      check_skill_sound parent.skill_grants second submodule
        (check_each-In (check_skill parent.skill_grants) d.skills d.skills_checked n) kept in
    let again : third.skill_id ≡ second.skill_id =
      id3 ∙ ap strip id2 ∙ strip_again first.skill_id ∙ sym id2 in
    (held, k, held_id ∙ sym again ∙ same_id, held_acts)

derived-IsWithin :
    {encoding : Encoding} {before : Tokens} {marker : ℕ} (parent grant : AgentGrant)
    → IsDerived encoding before marker parent grant
    → IsWithin parent grant
derived-IsWithin parent grant d =
    let same = (normalize_budget-inverse d.budget grant.budget_grant d.built.budget_normal).0 in
    record {
      policy = d.built.same_policy;
      project = ap (λ (i : AgentIdentity). i.project_id) d.built.same_identity ∙ d.project;
      session = ap (λ (i : AgentIdentity). i.session_id) d.built.same_identity ∙ d.session;
      tools = λ tool_id action h. derived-tool tool_id action d h;
      skills = λ skill_id submodule h. derived-skill skill_id submodule d h;
      budget = ap (budget_contains parent.budget_grant) same ∙ d.budget_checked;
    }

-- A grant that descends from an issued grant has the policy version, the project and the session
-- of that grant; each action of a tool and each submodule of a skill that it holds, that grant
-- holds; and its budget is contained in the budget of that grant.
pub descends-IsWithin :
    (encoding : Encoding) {ancestor grant : AgentGrant}
    → Issued encoding ancestor
    → Descends encoding ancestor grant
    → IsWithin ancestor grant
descends-IsWithin encoding {ancestor} i itself = record {
  policy = refl;
  project = refl;
  session = refl;
  tools = λ tool_id action h. h;
  skills = λ skill_id submodule h. h;
  budget = Issued-budget i;
}
descends-IsWithin encoding {ancestor} i
      (step {parent} tokens marker identity scopes tools skills budget {grant} d h) =
    let outer = descends-IsWithin encoding i d in
    let inner = derived-IsWithin parent grant (
      derive-IsDerived encoding tokens marker parent identity scopes tools skills budget grant h) in
    record {
      policy = inner.policy ∙ outer.policy;
      project = inner.project ∙ outer.project;
      session = inner.session ∙ outer.session;
      tools = λ tool_id action t. outer.tools tool_id action (inner.tools tool_id action t);
      skills = λ skill_id submodule t.
          outer.skills skill_id submodule (inner.skills skill_id submodule t);
      budget =
          budget_contains_trans ancestor.budget_grant parent.budget_grant grant.budget_grant
            outer.budget inner.budget;
    }
