-- ===== src/Events/Replay.antt =====
-- The loop of `subscribe` over the ring, with and without a publication in between.
use bridle.Events.Sound.{resume-IsOrdered, subscribe-IsOrdered, Reach-IsBus}
use bridle.Prelude.{
  zero, suc, refl, none, some, Option, ℕ, List, String, ◌<◌, ◌≡◌, length, true, Bool, eq_self, [],
  keep, In, ◌⊎◌, not, ◌≤◌, ◌↔◌, false, ◌++◌, ==-of_ne, inl, arith, ◌+◌, ◌||◌, ◌∙◌, ◌∷◌, ap,
  Bool-cases, inr, sym, contains-In, nat_eq, In-keep, keep-In, In-contains, string_eq,
}
use bridle.Prelude.Json.{Json}
use mathlib.Core.Path.{subst}
use mathlib.Core.List.{append_assoc, append-nil, cons-ne-nil}
use bridle.Events.Bus.{
  Event, Subscriber, EventBus, replaying, live, interrupted, subscribe, is_other, replay_on, resume,
  take_on, publish, deliver_to, joining, is_seen, yields,
}
use bridle.Events.Order.{Reach, Ascending, IsOrdered, front, rest_of, events_of}

-- A generator is resumed `n` times, and nothing is published in between.
abbrev pub resumes : ℕ → EventBus → Subscriber → Subscriber
resumes zero b s = s
resumes (suc n) b s = resumes n b (resume b s)

-- An event is later than the last one that a subscriber has seen.
abbrev pub IsAfter : Option ℕ → Event → Type 0
IsAfter none e = Unit
IsAfter (some last_seq) e = last_seq < e.seq

-- An event has one of the types that a subscriber named, if it named any.
abbrev pub IsOneOf : List String → Event → Type 0
IsOneOf types e = (types ≡ []) ⊎ In e.event_type types

abbrev is_wanted : Option ℕ → List String → Event → Bool
is_wanted last_seq types e = not (is_seen last_seq e || is_other types e)

wanted_iff :
    (last_seq : Option ℕ) (types : List String) (e : Event)
    → (is_wanted last_seq types e ≡ true) ↔ (IsAfter last_seq e × IsOneOf types e)
unfolding is_other
wanted_iff none [] e = (λ h. (tt, inl refl), λ w. refl)
wanted_iff none (t ∷ ts) e = (
  λ h. (tt, inr (contains-In (t ∷ ts) e.event_type (ground arith))),
  λ (_, w). elim w [
    | inl n ↦ absurd (cons-ne-nil t ts n)
    | inr m ↦ let c = In-contains (t ∷ ts) e.event_type m in ground arith
  ],
)
wanted_iff (some n) [] e = (λ h. (ground arith, inl refl), λ (a, _). ground arith)
wanted_iff (some n) (t ∷ ts) e = (
  λ h. (ground arith, inr (contains-In (t ∷ ts) e.event_type (ground arith))),
  λ (a, w). elim w [
    | inl n ↦ absurd (cons-ne-nil t ts n)
    | inr m ↦ let c = In-contains (t ∷ ts) e.event_type m in ground arith
  ],
)

idle :
    (n : ℕ) (b : EventBus) (s : Subscriber)
    → resumes n b (record s { stage = live; queue = [] }) ≡ record s { stage = live; queue = [] }
unfolding resume take_on
idle zero b s = refl
idle (suc n) b s = idle n b s

resume-replaying :
    (b : EventBus) (rest : List Event) (s : Subscriber)
    → resume b (record s { stage = replaying b.seq rest })
      ≡ replay_on b.seq rest (record s { stage = replaying b.seq rest })
unfolding resume
resume-replaying b rest s = rw (eq_self b.seq) refl

-- As many rounds as the iterator has events are enough.
resumes-replay_on :
    (n : ℕ) (b : EventBus) (rest : List Event) (s : Subscriber)
    → length rest ≤ n
    → resumes n b (replay_on b.seq rest (record s { queue = [] })) ≡ record s {
      stage = live;
      queue = [];
      yielded = s.yielded ++ keep (is_wanted s.last_seq s.types) rest;
    }
unfolding replay_on take_on keep
resumes-replay_on n b [] s h =
    idle n b s
    ∙ ap (λ es. record s { stage = live; queue = []; yielded = es }) (sym (append-nil s.yielded))
resumes-replay_on zero b (e ∷ rest) s h = absurd (omega (arith, h))
resumes-replay_on (suc n) b (e ∷ rest) s h =
    elim (Bool-cases (is_seen s.last_seq e || is_other s.types e)) [
      | inl q ↦ rw q (resumes-replay_on (suc n) b rest s (omega (arith, h)))
      | inr q ↦ rw q (
          ap (resumes n b) (resume-replaying b rest (yields e (record s { queue = [] })))
          ∙ resumes-replay_on n b rest (yields e (record s { stage = replaying b.seq rest }))
              (omega (arith, h))
          ∙ ap (λ es. record s { stage = live; queue = []; yielded = es })
              (append_assoc s.yielded (e ∷ []) (keep (is_wanted s.last_seq s.types) rest)))
    ]

resumes-subscribe :
    (b : EventBus) (last_seq : Option ℕ) (types : List String)
    → resumes (length b.ring) b (subscribe last_seq types b) ≡ record (joining last_seq types b) {
      stage = live;
      yielded = keep (is_wanted last_seq types) b.ring;
    }
unfolding subscribe
resumes-subscribe b last_seq types =
    resumes-replay_on (length b.ring) b b.ring (joining last_seq types b) (omega arith)

resumes-IsOrdered :
    (n : ℕ) (b : EventBus) (s : Subscriber) → IsOrdered b.seq s → IsOrdered b.seq (resumes n b s)
resumes-IsOrdered zero b s o = o
resumes-IsOrdered (suc n) b s o = resumes-IsOrdered n b (resume b s) (resume-IsOrdered b s o)

-- On any bus that can be reached, a subscriber that joins and is resumed as often as the ring has
-- events, with nothing published in between, is live and was given, in rising order, exactly the
-- events of the ring that are later than its `last_seq` and of one of its types, if it named any.
pub replay_complete :
    {b : EventBus} (last_seq : Option ℕ) (types : List String)
    → Reach b
    → let s = resumes (length b.ring) b (subscribe last_seq types b) in
      (s.stage ≡ live)
      × Ascending b.seq 0 s.yielded
      × ((e : Event) → In e s.yielded ↔ (In e b.ring × IsAfter last_seq e × IsOneOf types e))
replay_complete {b} last_seq types r =
    let s = resumes (length b.ring) b (subscribe last_seq types b) in
    let same = resumes-subscribe b last_seq types in
    let o =
      resumes-IsOrdered (length b.ring) b (subscribe last_seq types b)
        (subscribe-IsOrdered b last_seq types (Reach-IsBus r).ring_order) in
    (
      ap (λ (x : Subscriber). x.stage) same,
      front s.yielded (rest_of s.stage ++ events_of s.queue) o.order,
      λ e. (
        λ m.
            let (in_ring, w) =
              In-keep (is_wanted last_seq types) b.ring
                (subst (λ (x : Subscriber). In e x.yielded) same m) in
            let (after, chosen) = (wanted_iff last_seq types e).0 w in (in_ring, after, chosen),
        λ (in_ring, after, chosen).
            subst (λ (x : Subscriber). In e x.yielded) (sym same)
              (keep-In (is_wanted last_seq types) b.ring in_ring
                ((wanted_iff last_seq types e).1 (after, chosen))),
      ),
    )

-- A subscriber that is suspended in the replay of the ring when an event is published is
-- interrupted as soon as it is resumed, and taken off the bus; it was given nothing more, and
-- neither a further run nor a further publication changes it, so the event never reaches it.
pub publish_interrupts :
    (b : EventBus) (s : Subscriber) (rest : List Event) (event_type : String) (payload : Json)
    (occurred_at : String) (later : EventBus) (another : Event)
    → s.stage ≡ replaying b.seq rest
    → let (event, after) = publish event_type payload occurred_at b in
      let s' = resume after (deliver_to event s) in
      (s'.stage ≡ interrupted)
      × (s'.subscribed ≡ false)
      × (s'.yielded ≡ s.yielded)
      × (resume later s' ≡ s')
      × (deliver_to another s' ≡ s')
unfolding resume publish
publish_interrupts b s rest event_type payload occurred_at later another e =
    let changed = ==-of_ne (b.seq + 1) b.seq (λ h. absurd (ground (arith, h))) in
    elim (Bool-cases s.subscribed) [
      | inl q ↦ rw q (rw e (rw changed (refl, refl, refl, refl, refl)))
      | inr q ↦ rw q (rw e (rw changed (refl, refl, refl, refl, refl)))
    ]
