-- ===== src/Authorization/Derive/Matching.antt =====
-- What the containment and the overlap of scopes say of the requests that they match.
use bridle.Authorization.Paths.Order.{path_contains_trans, path_contains_total}
use bridle.Prelude.{
  here, there, ◌∙◌, List, [], ◌∷◌, none, some, true, Option, inl, inr, refl, String, IsFunctional,
  ◌≡◌, In, eq-of-==, ◌==◌, arith, dict_get, string_eq, contains-In, Bool-cases, ap, dict, eq_self,
  In-all, sym, contains, intersects, In-contains, dict-In, In-any, In-dict, dict_get-In,
}
use mathlib.Core.Path.{subst}
use bridle.Authorization.Paths.{path_contains}
use bridle.Authorization.Grants.{ResourceScope}
use bridle.Authorization.Decide.{scope_matches_request, entries_fit, attribute_fits}
use bridle.Authorization.Derive.{scope_contains, scopes_overlap, entries_overlap, values_overlap}

pub entries_fit-In :
    {k v : String} (given entries : List (String × String))
    → entries_fit given entries ≡ true
    → In (k, v) entries
    → attribute_fits k v (dict_get given k) ≡ true
unfolding entries_fit
entries_fit-In {k} {v} given [] h m = elim m [ ]
entries_fit-In {k} {v} given ((j, w) ∷ es) h (here e) =
    let ek : k ≡ j = ap (λ (r : String × String). r.0) e in
    let ev : v ≡ w = ap (λ (r : String × String). r.1) e in
    ap (λ t. attribute_fits t v (dict_get given t)) ek
    ∙ ap (λ t. attribute_fits j t (dict_get given j)) ev
    ∙ ground arith
entries_fit-In {k} {v} given ((j, w) ∷ es) h (there m) = entries_fit-In given es (ground arith) m

pub entries_fit_of_In :
    (given entries : List (String × String))
    → ((k v : String) → In (k, v) entries → attribute_fits k v (dict_get given k) ≡ true)
    → entries_fit given entries ≡ true
unfolding entries_fit
entries_fit_of_In given [] f = refl
entries_fit_of_In given ((j, w) ∷ es) f =
    let one = f j w (here refl) in
    let rest = entries_fit_of_In given es (λ k v m. f k v (there m)) in ground (arith, one, rest)

entries_overlap_of_In :
    (right entries : List (String × String))
    → ((k v : String) → In (k, v) entries → values_overlap k v (dict_get right k) ≡ true)
    → entries_overlap right entries ≡ true
unfolding entries_overlap
entries_overlap_of_In right [] f = refl
entries_overlap_of_In right ((j, w) ∷ es) f =
    let one = f j w (here refl) in
    let rest = entries_overlap_of_In right es (λ k v m. f k v (there m)) in
    ground (arith, one, rest)

-- What a scope says of the requests that it matches.
pub record Matches (action resource_type : String) (request : List (String × String))
    (scope : ResourceScope) : Type 0 where
  pub kind : scope.resource_type ≡ resource_type
  pub acts : In action scope.actions
  pub attribute :
      (k v : String)
      → In (k, v) scope.attributes
      → attribute_fits k v (dict_get (dict request) k) ≡ true

pub Matches-of_request :
    (action resource_type : String) (request : List (String × String)) (scope : ResourceScope)
    → scope_matches_request action resource_type request scope ≡ true
    → Matches action resource_type request scope
unfolding scope_matches_request
Matches-of_request action resource_type request scope h = record {
  kind = eq-of-== scope.resource_type resource_type (ground arith);
  acts = contains-In scope.actions action (ground arith);
  attribute = λ k v m. entries_fit-In (dict request) scope.attributes (ground arith) m;
}

pub request-of_Matches :
    (action resource_type : String) (request : List (String × String)) (scope : ResourceScope)
    → Matches action resource_type request scope
    → scope_matches_request action resource_type request scope ≡ true
unfolding scope_matches_request
request-of_Matches action resource_type request scope m =
    let a : (scope.resource_type == resource_type) ≡ true =
      ap (λ t. t == resource_type) m.kind ∙ eq_self resource_type in
    let b = In-contains scope.actions action m.acts in
    let c = entries_fit_of_In (dict request) scope.attributes m.attribute in rw a (rw b c)

-- One attribute of a parent, of a child and of a request.
fits_trans :
    (k v : String) (given actual : Option String)
    → attribute_fits k v given ≡ true
    → ((u : String) → given ≡ some u → attribute_fits k u actual ≡ true)
    → attribute_fits k v actual ≡ true
fits_trans k v none actual h f = absurd (ground arith)
fits_trans k v (some u) none h f = absurd (let g = f u refl in ground arith)
fits_trans k v (some u) (some a) h f = elim (Bool-cases (k == "path")) [
  | inl p ↦
      let g : path_contains u a ≡ true = rw p at (f u refl) in
      rw p (path_contains_trans v u a (rw p at h) g)
  | inr p ↦
      let g : (a == u) ≡ true = rw p at (f u refl) in
      let e : (u == v) ≡ true = rw p at h in rw p (subst (λ t. (a == t) ≡ true) (eq-of-== u v e) g)
]

-- What a contained scope matches, its container matches.
pub scope_contains-Matches :
    (action resource_type : String) (request : List (String × String))
    (parent child : ResourceScope)
    → IsFunctional parent.attributes
    → scope_contains parent child ≡ true
    → Matches action resource_type request child
    → Matches action resource_type request parent
unfolding scope_contains
scope_contains-Matches action resource_type request parent child f h m = record {
  kind = eq-of-== parent.resource_type child.resource_type (ground arith) ∙ m.kind;
  acts =
      contains-In parent.actions action
        (In-all (contains parent.actions) child.actions (ground arith) m.acts);
  attribute = λ k v n.
      fits_trans k v (dict_get (dict child.attributes) k) (dict_get (dict request) k)
        (entries_fit-In (dict child.attributes) (dict parent.attributes) (ground arith)
          (dict-In k v parent.attributes f n))
        (λ u e.
          m.attribute k u (In-dict child.attributes (dict_get-In k u (dict child.attributes) e)));
}

-- Two values that one request meets overlap.
fits_overlap :
    (k v : String) (given actual : Option String)
    → attribute_fits k v actual ≡ true
    → ((u : String) → given ≡ some u → attribute_fits k u actual ≡ true)
    → values_overlap k v given ≡ true
fits_overlap k v none actual h f = refl
fits_overlap k v (some u) none h f = absurd (ground arith)
fits_overlap k v (some u) (some a) h f = elim (Bool-cases (k == "path")) [
  | inl p ↦
      let g : path_contains u a ≡ true = rw p at (f u refl) in
      rw p (path_contains_total v u a (rw p at h) g)
  | inr p ↦
      let g : (a == u) ≡ true = rw p at (f u refl) in
      let e : (a == v) ≡ true = rw p at h in rw p (subst (λ t. (t == u) ≡ true) (eq-of-== a v e) g)
]

-- Two scopes that match one request overlap.
pub Matches-scopes_overlap :
    (action resource_type : String) (request : List (String × String)) (left right : ResourceScope)
    → Matches action resource_type request left
    → Matches action resource_type request right
    → scopes_overlap left right ≡ true
unfolding scopes_overlap
Matches-scopes_overlap action resource_type request left right l r =
    let a : (left.resource_type == right.resource_type) ≡ true =
      ap (λ t. t == right.resource_type) (l.kind ∙ sym r.kind) ∙ eq_self right.resource_type in
    let b : intersects left.actions right.actions ≡ true =
      In-any (contains right.actions) left.actions l.acts
        (In-contains right.actions action r.acts) in
    let c = entries_overlap_of_In (dict right.attributes) (dict left.attributes) (λ k v n.
      fits_overlap k v (dict_get (dict right.attributes) k) (dict_get (dict request) k)
        (l.attribute k v (In-dict left.attributes n))
        (λ u e.
          r.attribute k u
            (In-dict right.attributes (dict_get-In k u (dict right.attributes) e)))) in
    rw a (rw b c)
