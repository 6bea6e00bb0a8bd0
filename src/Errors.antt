-- ===== src/Errors.antt =====
-- The exceptions by which an operation ends: those of backend/src/bridle/api/errors.py, the
-- `MailboxError` of agent/runtime/mailbox.py, and those of SQLite and of the language.
use bridle.Prelude.{String, Bool, true, false, ◌≡◌, refl, arith, if◌then◌else◌}

-- `ConflictError` and `MailboxError` carry their `error_code`, and a `ValueError` the part of its
-- message before the colon. The codes of the others are fixed.
pub data Error : Type 0 where
  conflict_error mailbox_error value_error : String → Error
  not_found_error validation_error integrity_error assertion_error overflow_error key_error : Error

pub data Result {ℓ} (A : Type ℓ) : Type ℓ where
  ok : A → Result A
  raise : Error → Result A

-- The statements of a `do` block: the first exception ends it.
module _ {ℓ κ} {A : Type ℓ} {B : Type κ} where
  infixl 5 ◌>>=◌
  abbrev pub ◌>>=◌ : Result A → (A → Result B) → Result B
  done >>= next = elim done [ raise e ↦ raise e | ok a ↦ next a ]

  -- Inversion of a step that succeeded.
  pub >>=-eq-ok :
      (done : Result A) (next : A → Result B) {b : B}
      → (done >>= next) ≡ ok b
      → (a : A) × (done ≡ ok a) × (next a ≡ ok b)
  >>=-eq-ok (raise e) next h = absurd (ground arith)
  >>=-eq-ok (ok a) next h = (a, refl, h)

module _ {ℓ} {A : Type ℓ} where
  infixl 5 ◌>>◌
  abbrev pub ◌>>◌ : Result (Unit {0}) → Result A → Result A
  test >> rest = elim test [ raise e ↦ raise e | ok _ ↦ rest ]

  pub ok-injective : (a b : A) → ok a ≡ ok b → a ≡ b
  ok-injective a b h = ground arith

-- `if not test: raise e`
abbrev pub require : Bool → Error → Result (Unit {0})
require test e = if test then ok tt else raise e

pub require-eq-ok {ℓ} :
    {A : Type ℓ} (test : Bool) (e : Error) (m : Result A) {a : A}
    → (require test e >> m) ≡ ok a
    → (test ≡ true) × (m ≡ ok a)
require-eq-ok true e m h = (refl, h)
require-eq-ok false e m h = absurd (ground arith)
