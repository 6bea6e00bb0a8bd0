-- ===== src/Prelude/Json.antt =====
-- JSON values, as `json.loads` returns them; an object is a dict in insertion order. A number is
-- kept as its decimal text.
use bridle.Prelude.Equality.{◌==◌, string_eq, if◌then◌else◌}
use Prim.Native.String.{String}
use mathlib.Core.Path.{◌≡◌, refl}
use mathlib.Core.Logic.{if_pos}
use mathlib.Core.Bool.{Bool}
use mathlib.Core.Option.{Option, none, some}
use native.Mathlib.Omega.{arith}

mutual
  pub data Json : Type 0 where
    null : Json
    bool : Bool → Json
    num : String → Json
    str : String → Json
    arr : Items → Json
    obj : Fields → Json

  pub data Items : Type 0 where
    nil : Items
    cons : Json → Items → Items

  pub data Fields : Type 0 where
    end : Fields
    field : String → Json → Fields → Fields

-- `d.get(key)`: `None` for a missing key, as for a key bound to `null`.
unfoldable pub get : Fields → String → Json
get end key = null
get (field k v fs) key = if key == k then v else get fs key

-- `d[key] = value`
unfoldable pub put : Fields → String → Json → Fields
put end key value = field key value end
put (field k v fs) key value = if key == k then field k value fs else field k v (put fs key value)

-- A column that may be `NULL`.
abbrev pub of_option : Option String → Json
of_option none = null
of_option (some s) = str s

pub get-put :
    (fs : Fields) (j k : String) (v : Json) → get (put fs k v) j ≡ (if j == k then v else get fs j)
unfolding get put
get-put end j k v = ground arith
get-put (field i w fs) j k v = ground (arith, get-put fs j k v)

pub get-put_self : (fs : Fields) (k : String) (v : Json) → get (put fs k v) k ≡ v
get-put_self fs k v = rw get-put (rw (if_pos (string_eq.dec k k) refl))
