-- ===== src/Authorization/Normalize/Scopes.antt =====
-- The normalization of a scope as a whole.
use bridle.Authorization.Paths.Stable.{normalize_twice}
use bridle.Authorization.Normalize.Parts.{
  normalize_entries-In, normalize_entries-IsFunctional, In-normalize_entries, In-frozenset,
  In-traverse,
}
use bridle.Prelude.{
  ◌∙◌, List, [], ◌∷◌, true, inl, inr, Bool, String, ◌≡◌, In, IsFunctional, Bool-cases, string_lt,
  In-map, contains, strip, map, In-sorted, ◌==◌, sorted, sym, string_eq, ap, not, distinct,
  strip_again, sorted-In, ◌||◌, In-distinct, any, is_blank,
}
use mathlib.Core.Path.{subst}
use bridle.Errors.{ok, require-eq-ok, >>=-eq-ok, ok-injective, value_error}
use bridle.Authorization.Grants.{ResourceScope, Encoding, scope_eq}
use bridle.Authorization.Normalize.{
  frozenset, traverse, normalize_entries, normalize_value, normalize_scope, pair_lt,
  known_resource_types, no_strings,
}
use bridle.Authorization.Decide.{normalize_resource_scopes, scope_sort_key}

-- A scope and what it is normalized to.
pub record IsNormalFormOf (scope normal : ResourceScope) : Type 0 where
  pub entries : List (String × String)
  pub same_type : normal.resource_type ≡ scope.resource_type
  pub same_effect : normal.effect ≡ scope.effect
  pub effects : contains ("allow" ∷ "deny" ∷ []) scope.effect ≡ true
  pub stripped : normal.actions ≡ frozenset (map strip scope.actions)
  pub ordered : normal.attributes ≡ sorted pair_lt entries
  pub normalized : normalize_entries [] scope.attributes ≡ ok entries

pub normalize_scope-inverse :
    (scope normal : ResourceScope) → normalize_scope scope ≡ ok normal → IsNormalFormOf scope normal
unfolding normalize_scope
normalize_scope-inverse scope normal h =
    let (effects, h1) =
      require-eq-ok (contains ("allow" ∷ "deny" ∷ []) scope.effect) (value_error "invalid_effect") _
        h in
    let (_, h2) =
      require-eq-ok (contains known_resource_types scope.resource_type)
        (value_error "unknown_resource") _ h1 in
    let (_, h3) =
      require-eq-ok (not (no_strings scope.actions || any is_blank scope.actions))
        (value_error "invalid_action") _ h2 in
    let result : List (String × String) → ResourceScope = λ entries. record {
      resource_type = scope.resource_type;
      actions = frozenset (map strip scope.actions);
      attributes = sorted pair_lt entries;
      effect = scope.effect;
    } in
    let (entries, p, done) =
      >>=-eq-ok (normalize_entries [] scope.attributes) (λ es. ok (result es)) h3 in
    let same : normal ≡ result entries = sym (ok-injective (result entries) normal done) in
    record {
      entries = entries;
      same_type = ap (λ (s : ResourceScope). s.resource_type) same;
      same_effect = ap (λ (s : ResourceScope). s.effect) same;
      effects = effects;
      stripped = ap (λ (s : ResourceScope). s.actions) same;
      ordered = ap (λ (s : ResourceScope). s.attributes) same;
      normalized = p;
    }

pub normal-IsFunctional :
    {scope normal : ResourceScope} → IsNormalFormOf scope normal → IsFunctional normal.attributes
normal-IsFunctional {scope} {normal} f k v w m n =
    normalize_entries-IsFunctional [] scope.attributes f.entries f.normalized k v w
      (In-sorted pair_lt f.entries (subst (In (k, v)) f.ordered m))
      (In-sorted pair_lt f.entries (subst (In (k, w)) f.ordered n))

-- An action that is stripped already stays as it is.
pub action_again :
    {first second third : ResourceScope} (a : String)
    → IsNormalFormOf first second
    → IsNormalFormOf second third
    → In a third.actions
    → In a second.actions
action_again {first} {second} {third} a f g m =
    let (b, n, e) = In-map strip second.actions (In-frozenset _ (subst (In a) g.stripped m)) in
    let (c, k, d) = In-map strip first.actions (In-frozenset _ (subst (In b) f.stripped n)) in
    let same : a ≡ b = e ∙ ap strip d ∙ strip_again c ∙ sym d in
    subst (λ t. In t second.actions) (sym same) n

normalize_value_again :
    (k u v w : String) → normalize_value k u ≡ ok v → normalize_value k v ≡ ok w → v ≡ w
normalize_value_again k u v w h g = elim (Bool-cases (k == "path")) [
  | inl e ↦ normalize_twice u (rw e at h) (rw e at g)
  | inr e ↦ let r : ok v ≡ ok w = rw e at g in ok-injective v w r
]

-- And so does an attribute whose path is normalized already.
pub attribute_again :
    {first second third : ResourceScope} (k v : String)
    → IsNormalFormOf first second
    → IsNormalFormOf second third
    → In (k, v) second.attributes
    → In (k, v) third.attributes
attribute_again {first} {second} {third} k v f g m =
    let (w, n, p) = normalize_entries-In [] second.attributes g.entries g.normalized m in
    let (u, _, q) =
      In-normalize_entries [] first.attributes f.entries f.normalized
        (In-sorted pair_lt f.entries (subst (In (k, v)) f.ordered m)) in
    subst (In (k, v)) (sym g.ordered) (
      sorted-In pair_lt g.entries
        (subst (λ t. In (k, t) g.entries) (sym (normalize_value_again k u v w q p)) n))

module _ (encoding : Encoding) where
  -- Every scope of the result is the normal form of a scope given.
  pub In-normalize_resource_scopes :
      (scopes results : List ResourceScope) (normal : ResourceScope)
      → normalize_resource_scopes encoding scopes ≡ ok results
      → In normal results
      → (scope : ResourceScope) × In scope scopes × IsNormalFormOf scope normal
  unfolding normalize_resource_scopes
  In-normalize_resource_scopes scopes results normal h m =
      let key : ResourceScope → ResourceScope → Bool =
        λ a b. string_lt (scope_sort_key encoding a) (scope_sort_key encoding b) in
      let (found, p, done) =
        >>=-eq-ok (traverse normalize_scope scopes) (λ ss. ok (sorted key (distinct ss))) h in
      let n : In normal (sorted key (distinct found)) =
        subst (In normal) (sym (ok-injective (sorted key (distinct found)) results done)) m in
      let (scope, k, q) =
        In-traverse normalize_scope scopes p
          (In-distinct found (In-sorted key (distinct found) n)) in
      (scope, k, normalize_scope-inverse scope normal q)
