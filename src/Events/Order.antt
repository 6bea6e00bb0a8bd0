-- ===== src/Events/Order.antt =====
-- What subscribers get, in whatever order events are published and generators run.
use bridle.Prelude.Json.{Json}
use bridle.Events.Bus.{
  Event, Stage, Subscriber, EventBus, replaying, live, ended, interrupted, subscriber_queue_size,
  ring_buffer_size, empty_bus, publish, subscribe, resume, unsubscribe, aclose, put_nowait,
}
use bridle.Prelude.{
  none, some, List, Option, All, ◌∷◌, leb, ℕ, String, [], length, ltb, ◌≡◌, some, ◌++◌, arith, true,
  drop, ap, Bool-cases, inl, inr, length-append, suc, ◌∙◌, sym,
}
use bridle.Prelude.{refl}
use mathlib.Core.Path.{subst}
use mathlib.Core.List.{append_assoc}

pub data Step (b : EventBus) : EventBus → Type 0 where
  published :
      (event_type : String) (payload : Json) (occurred_at : String)
      → Step b ((publish event_type payload occurred_at b).1)
  joined :
      (last_seq : Option ℕ) (types : List String)
      → Step b (record b { subscribers = subscribe last_seq types b ∷ b.subscribers })
  resumed :
      (before after : List Subscriber) (s : Subscriber)
      → b.subscribers ≡ before ++ s ∷ after
      → Step b (record b { subscribers = before ++ resume b s ∷ after })
  removed :
      (before after : List Subscriber) (s : Subscriber)
      → b.subscribers ≡ before ++ s ∷ after
      → Step b (record b { subscribers = before ++ unsubscribe s ∷ after })
  closed :
      (before after : List Subscriber) (s : Subscriber)
      → b.subscribers ≡ before ++ s ∷ after
      → Step b (record b { subscribers = before ++ aclose s ∷ after })

pub data Reach : EventBus → Type 0 where
  start : Reach empty_bus
  next : {b c : EventBus} → Reach b → Step b c → Reach c

-- Sequence numbers rise, from above `lo` up to at most `hi`.
pub data Ascending (hi : ℕ) : ℕ → List Event → Type 0 where
  last : {lo : ℕ} → leb lo hi ≡ true → Ascending hi lo []
  above :
      {lo : ℕ} {e : Event} {es : List Event}
      → ltb lo e.seq ≡ true
      → Ascending hi e.seq es
      → Ascending hi lo (e ∷ es)

-- The events in a queue, and those that an iterator has still to give.
abbrev pub events_of : List (Option Event) → List Event
events_of [] = []
events_of (none ∷ queue) = events_of queue
events_of (some e ∷ queue) = e ∷ events_of queue

abbrev pub rest_of : Stage → List Event
rest_of (replaying started rest) = rest
rest_of live = []
rest_of ended = []
rest_of interrupted = []

pub record IsOrdered (seq : ℕ) (s : Subscriber) : Type 0 where
  pub order : Ascending seq 0 (s.yielded ++ (rest_of s.stage ++ events_of s.queue))
  pub bounded : leb (length s.queue) subscriber_queue_size ≡ true

pub record IsBus (b : EventBus) : Type 0 where
  pub ring_order : Ascending b.seq 0 b.ring
  pub ring_bounded : leb (length b.ring) ring_buffer_size ≡ true
  pub each : All (IsOrdered b.seq) b.subscribers

pub lower :
    {lo mid hi : ℕ} {es : List Event} → leb lo mid ≡ true → Ascending hi mid es → Ascending hi lo es
lower l (last p) = last (ground (arith, l, p))
lower l (above p a) = above (ground (arith, l, p)) a

pub raise_to :
    {hi hi' lo : ℕ} {es : List Event} → leb hi hi' ≡ true → Ascending hi lo es → Ascending hi' lo es
raise_to l (last p) = last (ground (arith, l, p))
raise_to l (above p a) = above p (raise_to l a)

-- An event less.
pub less :
    {lo hi : ℕ} (xs : List Event) (e : Event) (ys : List Event)
    → Ascending hi lo (xs ++ e ∷ ys)
    → Ascending hi lo (xs ++ ys)
less [] e ys (above p a) = lower (ground (arith, p)) a
less (x ∷ xs) e ys (above p a) = above p (less xs e ys a)

-- A new event at the end.
pub more :
    {lo hi : ℕ} (xs : List Event) (e : Event)
    → ltb hi e.seq ≡ true
    → Ascending hi lo xs
    → Ascending e.seq lo (xs ++ e ∷ [])
more [] e l (last p) = above (ground (arith, l, p)) (last (ground arith))
more (x ∷ xs) e l (above p a) = above p (more xs e l a)

pub front : {lo hi : ℕ} (xs ys : List Event) → Ascending hi lo (xs ++ ys) → Ascending hi lo xs
front [] [] a = a
front [] (y ∷ ys) (above p a) = front [] ys (lower (ground (arith, p)) a)
front (x ∷ xs) ys (above p a) = above p (front xs ys a)

pub without :
    {lo hi : ℕ} (xs zs ys : List Event)
    → Ascending hi lo (xs ++ (zs ++ ys))
    → Ascending hi lo (xs ++ ys)
without xs [] ys a = a
without xs (z ∷ zs) ys a = without xs zs ys (less xs z (zs ++ ys) a)

pub shift :
    {lo hi : ℕ} (xs : List Event) (e : Event) (ys : List Event)
    → Ascending hi lo (xs ++ e ∷ ys)
    → Ascending hi lo ((xs ++ e ∷ []) ++ ys)
shift [] e ys a = a
shift (x ∷ xs) e ys (above p a) = above p (shift xs e ys a)

events_of-append :
    (queue : List (Option Event)) (e : Event)
    → events_of (queue ++ some e ∷ []) ≡ events_of queue ++ e ∷ []
events_of-append [] e = refl
events_of-append (none ∷ queue) e = events_of-append queue e
events_of-append (some x ∷ queue) e = ap (λ es. x ∷ es) (events_of-append queue e)

pub events_of-none :
    (queue : List (Option Event)) → events_of (queue ++ none ∷ []) ≡ events_of queue
events_of-none [] = refl
events_of-none (none ∷ queue) = events_of-none queue
events_of-none (some x ∷ queue) = ap (λ es. x ∷ es) (events_of-none queue)

-- The oldest item of a queue is dropped.
pub tail-order :
    {lo hi : ℕ} (xs : List Event) (queue : List (Option Event))
    → Ascending hi lo (xs ++ events_of queue)
    → Ascending hi lo (xs ++ events_of (drop 1 queue))
unfolding drop
tail-order xs [] a = a
tail-order xs (none ∷ queue) a = a
tail-order xs (some e ∷ queue) a = less xs e (events_of queue) a

pub put-order :
    {lo hi : ℕ} (xs : List Event) (queue : List (Option Event)) (e : Event)
    → ltb hi e.seq ≡ true
    → Ascending hi lo (xs ++ events_of queue)
    → Ascending e.seq lo (xs ++ events_of (put_nowait (some e) queue))
unfolding put_nowait
put-order {lo} {hi} xs queue e l a = elim (Bool-cases (leb subscriber_queue_size (length queue))) [
  | inl q ↦ rw q (raise_to (ground (arith, l)) a)
  | inr q ↦ rw q (
      subst (Ascending e.seq lo)
        (append_assoc xs (events_of queue) (e ∷ [])
          ∙ ap (λ es. xs ++ es) (sym (events_of-append queue e)))
        (more (xs ++ events_of queue) e l a))
]

pub put-bounded :
    (item : Option Event) (queue : List (Option Event))
    → leb (length queue) subscriber_queue_size ≡ true
    → leb (length (put_nowait item queue)) subscriber_queue_size ≡ true
unfolding put_nowait
put-bounded item queue b = elim (Bool-cases (leb subscriber_queue_size (length queue))) [
  | inl q ↦ rw q b
  | inr q ↦ rw q (rw (length-append queue (item ∷ [])) (ground (arith, q)))
]

pub fewer : (n : ℕ) → leb (suc n) subscriber_queue_size ≡ true → leb n subscriber_queue_size ≡ true
fewer n b = ground (arith, b)

pub tail-bounded :
    (queue : List (Option Event))
    → leb (length queue) subscriber_queue_size ≡ true
    → leb (length (drop 1 queue)) subscriber_queue_size ≡ true
unfolding drop
tail-bounded [] b = b
tail-bounded (item ∷ queue) b = fewer (length queue) b
