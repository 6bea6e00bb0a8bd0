-- ===== src/Mailbox/Selected.antt =====
-- The row that `claim` of agent/runtime/persistent_mailbox.py picks, and the row that its id
-- selects.
use bridle.Mailbox.Table.{earliest, Message, earlier, is_message}
use mathlib.Core.Option.{some-injective}
use mathlib.Core.Path.{subst}
use bridle.Prelude.{
  ◌∙◌, List, [], ◌∷◌, none, some, true, Option, inl, inr, refl, Bool, String, ◌≡◌, rowcount, arith,
  ◌≤◌, nat_eq, select_one, ◌⊎◌, rowcount-tail-le, select_one-tail, Bool-cases, sym, eq_self,
}

-- The row that is claimed is the one that its id selects.
earlier-cases : (x : Message) (o : Option Message) → (earlier x o ≡ x) ⊎ (o ≡ some (earlier x o))
earlier-cases x none = inl refl
earlier-cases x (some y) = ground arith

abbrev pub IsSelected : (Message → Bool) → List Message → Message → Type 0
IsSelected p ms m = (select_one (is_message m.message_id) ms ≡ some m) × (p m ≡ true)

IsSelected-here :
    (p : Message → Bool) (x m : Message) (ms : List Message)
    → p x ≡ true
    → x ≡ m
    → IsSelected p (x ∷ ms) m
unfolding select_one
IsSelected-here p x m ms e q =
    subst (λ y. IsSelected p (x ∷ ms) y) q (rw (eq_self {A = String} x.message_id) refl, e)

IsSelected-below :
    (p : Message → Bool) (x m : Message) (ms : List Message)
    → ((message_id : String) → rowcount (is_message message_id) (x ∷ ms) ≤ 1)
    → IsSelected p ms m
    → IsSelected p (x ∷ ms) m
IsSelected-below p x m ms keyed (at, good) =
    (select_one-tail (is_message m.message_id) x ms m (keyed m.message_id) at, good)

pub earliest-IsSelected :
    (p : Message → Bool) (ms : List Message) (m : Message)
    → ((message_id : String) → rowcount (is_message message_id) ms ≤ 1)
    → earliest p ms ≡ some m
    → IsSelected p ms m
unfolding earliest
earliest-IsSelected p [] m keyed h = absurd (ground arith)
earliest-IsSelected p (x ∷ ms) m keyed h =
    let rest =
      earliest-IsSelected p ms m (λ id. rowcount-tail-le (is_message id) x ms (keyed id)) in
    elim (Bool-cases (p x)) [
      | inr e ↦ IsSelected-below p x m ms keyed (rest (rw e at h))
      | inl e ↦ elim (earlier-cases x (earliest p ms)) [
        | inl own ↦ IsSelected-here p x m ms e (sym own ∙ some-injective _ m (rw e at h))
        | inr later ↦ IsSelected-below p x m ms keyed (rest (later ∙ (rw e at h)))
      ]
    ]
