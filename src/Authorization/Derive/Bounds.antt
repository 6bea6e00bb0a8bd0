-- ===== src/Authorization/Derive/Bounds.antt =====
-- The tools, skills and budget of a derived grant, beside those of the grants it descends from.
use bridle.Authorization.Normalize.Parts.{In-frozenset, In-traverse}
use bridle.Prelude.{
  ◌∙◌, List, true, inl, inr, String, In, ◌≡◌, map, strip, dict, In-map, sorted, not, dict_get,
  distinct, Option-cases, is_blank, sym, ap, strip_again, In-dict, any, ◌||◌, In-distinct,
  dict_get-In, subset, In-sorted, contains-In, In-all, contains, string_eq,
}
use mathlib.Core.Path.{subst}
use mathlib.Core.Bool.{true≢false}
use bridle.Errors.{ok, >>=-eq-ok, require-eq-ok, ok-injective, value_error}
use bridle.Authorization.Grants.{AgentGrant, ToolGrant, SkillGrant, tool_eq, skill_eq}
use bridle.Authorization.Normalize.{
  normalize_tool, normalize_tool_grants, normalize_skill, normalize_skill_grants, traverse,
  frozenset, tool_lt, skill_lt, no_strings,
}
use bridle.Authorization.Derive.{check_tool, check_skill, tool_within, skill_within}
use bridle.Authorization.Derive.Inverse.{require-true}

-- The grant holds an action of a tool, and a submodule of a skill.
abbrev pub HoldsTool : AgentGrant → String → String → Type 0
HoldsTool grant tool_id action =
    (tool : ToolGrant) × In tool grant.tool_grants
    × (tool.tool_id ≡ tool_id)
    × In action tool.actions

abbrev pub HoldsSkill : AgentGrant → String → String → Type 0
HoldsSkill grant skill_id submodule =
    (skill : SkillGrant) × In skill grant.skill_grants
    × (skill.skill_id ≡ skill_id)
    × In submodule skill.submodules

-- Stripping twice is stripping once.
pub stripped_again :
    {a : String} (first : List String)
    → In a (frozenset (map strip (frozenset (map strip first))))
    → In a (frozenset (map strip first))
stripped_again {a} first m =
    let (b, n, e) = In-map strip (frozenset (map strip first)) (In-frozenset _ m) in
    let (c, _, d) = In-map strip first (In-frozenset _ n) in
    subst (λ t. In t (frozenset (map strip first))) (sym (e ∙ ap strip d ∙ strip_again c ∙ sym d)) n

pub normalize_tool-inverse :
    (tool normal : ToolGrant)
    → normalize_tool tool ≡ ok normal
    → (normal.tool_id ≡ strip tool.tool_id) × (normal.actions ≡ frozenset (map strip tool.actions))
unfolding normalize_tool
normalize_tool-inverse tool normal h =
    let (_, h1) =
      require-eq-ok (not (is_blank tool.tool_id)) (value_error "invalid_tool_grant") _ h in
    let (_, h2) =
      require-eq-ok (not (no_strings tool.actions || any is_blank tool.actions))
        (value_error "invalid_tool_grant") _ h1 in
    let made : ToolGrant = record {
      tool_id = strip tool.tool_id;
      actions = frozenset (map strip tool.actions);
    } in
    let same : made ≡ normal = ok-injective made normal h2 in
    (ap (λ (t : ToolGrant). t.tool_id) (sym same), ap (λ (t : ToolGrant). t.actions) (sym same))

pub normalize_skill-inverse :
    (skill normal : SkillGrant)
    → normalize_skill skill ≡ ok normal
    → (normal.skill_id ≡ strip skill.skill_id)
      × (normal.submodules ≡ frozenset (map strip skill.submodules))
unfolding normalize_skill
normalize_skill-inverse skill normal h =
    let (_, h1) =
      require-eq-ok (not (is_blank skill.skill_id)) (value_error "invalid_skill_grant") _ h in
    let (_, h2) =
      require-eq-ok (not (any is_blank skill.submodules)) (value_error "invalid_skill_grant") _
        h1 in
    let made : SkillGrant = record {
      skill_id = strip skill.skill_id;
      submodules = frozenset (map strip skill.submodules);
    } in
    let same : made ≡ normal = ok-injective made normal h2 in
    (
      ap (λ (t : SkillGrant). t.skill_id) (sym same),
      ap (λ (t : SkillGrant). t.submodules) (sym same),
    )

-- Every result of a normalization comes from an item given.
pub In-normalize_tool_grants :
    (tools results : List ToolGrant) (normal : ToolGrant)
    → normalize_tool_grants tools ≡ ok results
    → In normal results
    → (tool : ToolGrant) × In tool tools × (normalize_tool tool ≡ ok normal)
unfolding normalize_tool_grants
In-normalize_tool_grants tools results normal h m =
    let (found, p, done) =
      >>=-eq-ok (traverse normalize_tool tools) (λ ts. ok (sorted tool_lt (distinct ts))) h in
    let n : In normal (sorted tool_lt (distinct found)) =
      subst (In normal) (sym (ok-injective (sorted tool_lt (distinct found)) results done)) m in
    In-traverse normalize_tool tools p (In-distinct found (In-sorted tool_lt (distinct found) n))

pub In-normalize_skill_grants :
    (skills results : List SkillGrant) (normal : SkillGrant)
    → normalize_skill_grants skills ≡ ok results
    → In normal results
    → (skill : SkillGrant) × In skill skills × (normalize_skill skill ≡ ok normal)
unfolding normalize_skill_grants
In-normalize_skill_grants skills results normal h m =
    let (found, p, done) =
      >>=-eq-ok (traverse normalize_skill skills) (λ ts. ok (sorted skill_lt (distinct ts))) h in
    let n : In normal (sorted skill_lt (distinct found)) =
      subst (In normal) (sym (ok-injective (sorted skill_lt (distinct found)) results done)) m in
    In-traverse normalize_skill skills p (In-distinct found (In-sorted skill_lt (distinct found) n))

-- The parent's grant of a tool that is checked.
pub check_tool_sound :
    (grants : List ToolGrant) (tool : ToolGrant) (action : String)
    → check_tool grants tool ≡ ok tt
    → In action tool.actions
    → (held : ToolGrant) × In held grants × (held.tool_id ≡ tool.tool_id) × In action held.actions
unfolding check_tool
check_tool_sound grants tool action h m =
    let key = λ (g : ToolGrant). let pair : String × ToolGrant = (g.tool_id, g) in pair in
    let items = dict (map key grants) in
    let fine = require-true (tool_within tool (dict_get items tool.tool_id)) _ h in
    elim (Option-cases (dict_get items tool.tool_id)) [
      | inl e ↦ absurd (true≢false (sym fine ∙ ap (tool_within tool) e))
      | inr (held, e) ↦
          let n = In-dict (map key grants) (dict_get-In tool.tool_id held items e) in
          let (g, k, q) = In-map key grants n in
          let same : held ≡ g = ap (λ (r : String × ToolGrant). r.1) q in
          let inside : subset tool.actions held.actions ≡ true =
            sym (ap (tool_within tool) e) ∙ fine in
          (
            held,
            subst (λ t. In t grants) (sym same) k,
            ap (λ (t : ToolGrant). t.tool_id) same ∙ sym (ap (λ (r : String × ToolGrant). r.0) q),
            contains-In held.actions action (In-all (contains held.actions) tool.actions inside m),
          )
    ]

pub check_skill_sound :
    (grants : List SkillGrant) (skill : SkillGrant) (submodule : String)
    → check_skill grants skill ≡ ok tt
    → In submodule skill.submodules
    → (held : SkillGrant) × In held grants
      × (held.skill_id ≡ skill.skill_id)
      × In submodule held.submodules
unfolding check_skill
check_skill_sound grants skill submodule h m =
    let key = λ (g : SkillGrant). let pair : String × SkillGrant = (g.skill_id, g) in pair in
    let items = dict (map key grants) in
    let fine = require-true (skill_within skill (dict_get items skill.skill_id)) _ h in
    elim (Option-cases (dict_get items skill.skill_id)) [
      | inl e ↦ absurd (true≢false (sym fine ∙ ap (skill_within skill) e))
      | inr (held, e) ↦
          let n = In-dict (map key grants) (dict_get-In skill.skill_id held items e) in
          let (g, k, q) = In-map key grants n in
          let same : held ≡ g = ap (λ (r : String × SkillGrant). r.1) q in
          let inside : subset skill.submodules held.submodules ≡ true =
            sym (ap (skill_within skill) e) ∙ fine in
          (
            held,
            subst (λ t. In t grants) (sym same) k,
            ap (λ (t : SkillGrant). t.skill_id) same
                ∙ sym (ap (λ (r : String × SkillGrant). r.0) q),
            contains-In held.submodules submodule
                (In-all (contains held.submodules) skill.submodules inside m),
          )
    ]
