-- ===== src/Authorization/Tokens/Counts.antt =====
-- What one step does to `_pending_starts` and to the events.
use bridle.Prelude.{
  ◌∙◌, List, [], ◌∷◌, ◌++◌, some, true, false, Option, inl, inr, refl, ℕ, ◌≡◌, sym, ◌+◌, any,
  Bool-cases, arith, ap, Option-cases, ◌≢◌, contains, nat_eq, In-any, contains-In,
}
use mathlib.Core.Bool.{true≢false}
use mathlib.Core.Option.{none-ne-some, some-injective}
use bridle.Authorization.Grants.{RevocationToken}
use bridle.Authorization.Tokens.{
  Tokens, Reservation, ReservationState, pending, entered, cancelled, reserve_start_locked, finish,
  reserve_markers, lineage, start_each, finish_each, finish_from,
}
use bridle.Authorization.Tokens.Schedule.{pending_below, is_pending}

pending_below-append :
    (m : ℕ) (xs ys : List Reservation)
    → pending_below m (xs ++ ys) ≡ pending_below m xs + pending_below m ys
unfolding pending_below
pending_below-append m [] ys = omega arith
pending_below-append m (x ∷ xs) ys = omega (arith, pending_below-append m xs ys)

-- What a reservation found and made.
pub reserve_start_locked-inverse :
    (tokens tokens' : Tokens) (token : RevocationToken) (reservation : Reservation)
    → reserve_start_locked tokens token ≡ some (reservation, tokens')
    → (any tokens.event reservation.markers ≡ false)
      × (reservation.state ≡ pending)
      × (tokens'
          ≡ record tokens { pending_starts = start_each reservation.markers tokens.pending_starts })
unfolding reserve_start_locked
reserve_start_locked-inverse tokens tokens' token reservation h =
    elim (Option-cases (lineage token)) [
      | inl e ↦ absurd (none-ne-some _ (ap (reserve_markers tokens) (sym e) ∙ h))
      | inr (markers, e) ↦ from_markers markers (ap (reserve_markers tokens) (sym e) ∙ h)
    ]
  where
    from_markers :
        (markers : List ℕ)
        → reserve_markers tokens (some markers) ≡ some (reservation, tokens')
        → (any tokens.event reservation.markers ≡ false)
          × (reservation.state ≡ pending)
          × (tokens' ≡ record tokens {
            pending_starts = start_each reservation.markers tokens.pending_starts;
          })
    from_markers markers g = elim (Bool-cases (any tokens.event markers)) [
      | inl q ↦ absurd (none-ne-some _ (rw q at g))
      | inr q ↦
          let made : Reservation = record { markers = markers; state = pending } in
          let same : ◌≡◌ {A = Option (Reservation × Tokens)}
              (some
                (made, record tokens { pending_starts = start_each markers tokens.pending_starts }))
              (some (reservation, tokens')) =
            rw q at g in
          let pair = some-injective _ _ same in
          let er : made ≡ reservation = ap (λ (p : Reservation × Tokens). p.0) pair in
          let et = ap (λ (p : Reservation × Tokens). p.1) pair in
          (
            ap (λ (r : Reservation). any tokens.event r.markers) (sym er) ∙ q,
            ap (λ (r : Reservation). r.state) (sym er),
            sym et
                ∙ ap
                    (λ (r : Reservation). record tokens {
                      pending_starts = start_each r.markers tokens.pending_starts;
                    })
                    er,
          )
    ]

-- A start that is reserved counts once below each token of its lineage.
pub reserved-count :
    (m : ℕ) (r : Reservation) (rs : List Reservation) (starts : ℕ → ℕ)
    → r.state ≡ pending
    → starts m ≡ pending_below m rs
    → start_each r.markers starts m ≡ pending_below m (r ∷ rs)
unfolding start_each pending_below
reserved-count m r rs starts p e =
    let live : is_pending r ≡ true = rw p refl in
    elim (Bool-cases (contains r.markers m)) [
      | inl c ↦ rw c (rw live (omega (arith, e)))
      | inr c ↦ rw c (rw live (omega (arith, e)))
    ]

not_pending :
    (state : ReservationState) (markers : List ℕ)
    → state ≢ pending
    → is_pending record { markers = markers; state = state } ≡ false
not_pending pending markers n = absurd (n refl)
not_pending entered markers n = refl
not_pending cancelled markers n = refl

-- One pending start fewer.
concluded-count :
    (m : ℕ) (state : ReservationState) (r : Reservation) (starts : ℕ → ℕ) (before : ℕ)
    (after : List Reservation)
    → state ≢ pending
    → r.state ≡ pending
    → starts m ≡ before + pending_below m (r ∷ after)
    → finish_each r.markers starts m ≡ before + pending_below m (record r { state = state } ∷ after)
unfolding finish_each pending_below
concluded-count m state r starts before after n q h =
    let live : is_pending r ≡ true = rw q refl in
    let over = not_pending state r.markers n in
    elim (Bool-cases (contains r.markers m)) [
      | inl c ↦ let g = rw (live, c) at h in rw c (rw over (omega (arith, g)))
      | inr c ↦ let g = rw (live, c) at h in rw c (rw over (omega (arith, g)))
    ]

-- A start that is concluded is discounted, and only once.
pub finished-count :
    (m : ℕ) (state : ReservationState) (r : Reservation) (tokens : Tokens)
    (before after : List Reservation)
    → state ≢ pending
    → tokens.pending_starts m ≡ pending_below m (before ++ r ∷ after)
    → (finish state r tokens).1.pending_starts m
      ≡ pending_below m (before ++ (finish state r tokens).0 ∷ after)
unfolding finish
finished-count m state r tokens before after n e =
    let full = pending_below-append m before (r ∷ after) in
    let done = pending_below-append m before ((finish_from r.state state r tokens).0 ∷ after) in
    by_state r.state refl (e ∙ full) ∙ sym done
  where
    by_state :
        (was : ReservationState)
        → r.state ≡ was
        → tokens.pending_starts m ≡ pending_below m before + pending_below m (r ∷ after)
        → (finish_from was state r tokens).1.pending_starts m
          ≡ pending_below m before + pending_below m ((finish_from was state r tokens).0 ∷ after)
    by_state pending q h =
        concluded-count m state r tokens.pending_starts (pending_below m before) after n q h
    by_state entered q h = h
    by_state cancelled q h = h

pub finish-event :
    (state : ReservationState) (r : Reservation) (tokens : Tokens)
    → (finish state r tokens).1.event ≡ tokens.event
unfolding finish
finish-event state r tokens = by_state r.state
  where
    by_state : (was : ReservationState) → (finish_from was state r tokens).1.event ≡ tokens.event
    by_state pending = refl
    by_state entered = refl
    by_state cancelled = refl

-- What ends for good stays at zero.
pub finish-closed :
    (m : ℕ) (state : ReservationState) (r : Reservation) (tokens : Tokens)
    → tokens.pending_starts m ≡ 0
    → (finish state r tokens).1.pending_starts m ≡ 0
unfolding finish finish_each
finish-closed m state r tokens h = by_state r.state
  where
    by_state : (was : ReservationState) → (finish_from was state r tokens).1.pending_starts m ≡ 0
    by_state pending = ground arith
    by_state entered = h
    by_state cancelled = h

pub start-closed :
    (m : ℕ) (r : Reservation) (tokens : Tokens)
    → any tokens.event r.markers ≡ false
    → tokens.event m ≡ true
    → start_each r.markers tokens.pending_starts m ≡ tokens.pending_starts m
unfolding start_each
start-closed m r tokens quiet set = elim (Bool-cases (contains r.markers m)) [
  | inr c ↦ rw c refl
  | inl c ↦
      absurd
        (true≢false (sym (In-any tokens.event r.markers (contains-In r.markers m c) set) ∙ quiet))
]
