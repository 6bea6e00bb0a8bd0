-- ===== src/Authorization/Drives.antt =====
-- backend/src/bridle/agent/runtime/authorization.py: scopes whose normalized path begins with a
-- segment that ends with a colon.
use bridle.Authorization.Paths.Stable.{normalize_again}
use bridle.Prelude.{
  ◌∙◌, List, none, some, true, false, Option, inl, inr, refl, String, string_eq, ◌≡◌, Bool-cases,
  In, dict_get, dict, ap, arith, if◌then◌else◌,
}
use bridle.Errors.{ok, raise, value_error}
use bridle.Authorization.Paths.{path_contains, normalize_relative_path, is_drive}
use bridle.Authorization.Grants.{ResourceScope}
use bridle.Authorization.Decide.{scope_matches_request, attribute_fits}
use bridle.Authorization.Derive.Matching.{Matches-of_request}
use bridle.Authorization.Paths.Order.{contains-normalized}

drive-uncontained :
    (path other : String) {n : String}
    → normalize_relative_path path ≡ ok n
    → is_drive n ≡ true
    → path_contains n other ≡ false
drive-uncontained path other {n} h d = elim (Bool-cases (path_contains n other)) [
  | inr q ↦ q
  | inl q ↦
      let (w, _) = contains-normalized n other q in
      let again : normalize_relative_path n ≡ raise (value_error "invalid_path") =
        normalize_again path h
        ∙ ap (λ b. if b then raise (value_error "invalid_path") else ok n) d in
      absurd (let e = w.normal in ground (arith, again, e))
]

path-unfit :
    (n : String) (actual : Option String)
    → ((other : String) → path_contains n other ≡ false)
    → attribute_fits "path" n actual ≡ false
unfolding string_eq
path-unfit n none f = refl
path-unfit n (some other) f = f other

-- A scope whose path normalizes to one with a colon at the end of its first segment matches no
-- request at all, whether it allows or denies.
pub drive_scope-unmatched :
    (action resource_type : String) (request : List (String × String)) (scope : ResourceScope)
    (path : String) {n : String}
    → normalize_relative_path path ≡ ok n
    → is_drive n ≡ true
    → In ("path", n) scope.attributes
    → scope_matches_request action resource_type request scope ≡ false
drive_scope-unmatched action resource_type request scope path {n} h d m =
    elim (Bool-cases (scope_matches_request action resource_type request scope)) [
      | inr q ↦ q
      | inl q ↦
          let fit =
            (Matches-of_request action resource_type request scope q).attribute "path" n m in
          let unfit =
            path-unfit n (dict_get (dict request) "path")
              (λ other. drive-uncontained path other h d) in
          absurd (ground (arith, fit, unfit))
    ]
