-- ===== src/Events/Sound.antt =====
-- Each step of the bus keeps its invariant.
use bridle.Prelude.{
  here, there, none, some, refl, ℕ, List, ◌≡◌, Option, [], ◌+◌, ◌∷◌, Bool-cases, if◌then◌else◌,
  ◌++◌, some, leb, ◌||◌, sym, length, drop, inl, inr, true, arith, ◌==◌, nat_eq, All, ltb, map,
  length-append, In, String,
}
use mathlib.Core.Path.{subst}
use mathlib.Core.List.{append_assoc, append-nil}
use bridle.Events.Bus.{
  Event, Stage, Subscriber, EventBus, replaying, live, ended, interrupted, subscriber_queue_size,
  ring_buffer_size, deliver, replay_on, take_on, finish_at, deliver_to, is_seen, is_other,
  put_nowait, resume, resume_from, unsubscribe, ring_append, publish, subscribe, aclose, close_from,
  joining,
}
use bridle.Events.Order.{
  Step, Reach, Ascending, last, IsOrdered, IsBus, published, joined, resumed, removed, closed,
  start, next, rest_of, fewer, events_of, less, tail-order, shift, tail-bounded, put-order,
  raise_to, without, put-bounded, events_of-none, more, front,
}

deliver-IsOrdered :
    {seq : ℕ} (event : Event) (s : Subscriber)
    → event.seq ≡ seq + 1
    → IsOrdered seq s
    → IsOrdered event.seq (deliver_to event s)
unfolding deliver
deliver-IsOrdered {seq} event s e o = elim (Bool-cases s.subscribed) [
  | inr q ↦ rw q record { order = raise_to (ground (arith, e)) o.order; bounded = o.bounded }
  | inl q ↦ rw q record { order = reached; bounded = put-bounded (some event) kept kept_bounded }
]
  where
    kept : List (Option Event)
    kept = if leb subscriber_queue_size (length s.queue) then drop 1 s.queue else s.queue

    before : List Event
    before = s.yielded ++ rest_of s.stage

    kept_order : Ascending seq 0 (before ++ events_of kept)
    kept_order =
        let o' =
          subst (Ascending seq 0)
            (sym (append_assoc s.yielded (rest_of s.stage) (events_of s.queue))) o.order in
        elim (Bool-cases (leb subscriber_queue_size (length s.queue))) [
          | inl q ↦ rw q (tail-order before s.queue o')
          | inr q ↦ rw q o'
        ]

    kept_bounded : leb (length kept) subscriber_queue_size ≡ true
    kept_bounded = elim (Bool-cases (leb subscriber_queue_size (length s.queue))) [
      | inl q ↦ rw q (tail-bounded s.queue o.bounded)
      | inr q ↦ rw q o.bounded
    ]

    reached :
        Ascending event.seq 0
          (s.yielded ++ (rest_of s.stage ++ events_of (put_nowait (some event) kept)))
    reached =
        subst (Ascending event.seq 0)
          (append_assoc s.yielded (rest_of s.stage) (events_of (put_nowait (some event) kept)))
          (put-order before kept event (ground (arith, e)) kept_order)

finish-IsOrdered :
    {seq : ℕ} (stage : Stage) (s : Subscriber)
    → rest_of stage ≡ []
    → IsOrdered seq s
    → IsOrdered seq (finish_at stage s)
finish-IsOrdered {seq} stage s e o = record {
  order =
      subst (λ es. Ascending seq 0 (s.yielded ++ (es ++ events_of s.queue))) (sym e)
        (without s.yielded (rest_of s.stage) (events_of s.queue) o.order);
  bounded = o.bounded;
}

take-IsOrdered :
    {seq : ℕ} (queue : List (Option Event)) (s : Subscriber)
    → IsOrdered seq (record s { stage = live; queue = queue })
    → IsOrdered seq (take_on queue (record s { stage = live }))
unfolding take_on
take-IsOrdered [] s o = o
take-IsOrdered (none ∷ queue) s o = record {
  order = o.order;
  bounded = fewer (length queue) o.bounded;
}
take-IsOrdered (some e ∷ queue) s o = elim (Bool-cases (is_other s.types e)) [
  | inl q ↦ rw q (
      take-IsOrdered queue s record {
        order = less s.yielded e (events_of queue) o.order;
        bounded = fewer (length queue) o.bounded;
      })
  | inr q ↦ rw q record {
    order = shift s.yielded e (events_of queue) o.order;
    bounded = fewer (length queue) o.bounded;
  }
]

replay-IsOrdered :
    {seq : ℕ} (started : ℕ) (rest : List Event) (s : Subscriber)
    → IsOrdered seq (record s { stage = replaying started rest })
    → IsOrdered seq (replay_on started rest s)
unfolding replay_on
replay-IsOrdered started [] s o =
    take-IsOrdered s.queue s record { order = o.order; bounded = o.bounded }
replay-IsOrdered started (e ∷ rest) s o =
    elim (Bool-cases (is_seen s.last_seq e || is_other s.types e)) [
      | inl q ↦ rw q (
          replay-IsOrdered started rest s record {
            order = less s.yielded e (rest ++ events_of s.queue) o.order;
            bounded = o.bounded;
          })
      | inr q ↦ rw q record {
        order = shift s.yielded e (rest ++ events_of s.queue) o.order;
        bounded = o.bounded;
      }
    ]

pub subscribe-IsOrdered :
    (b : EventBus) (last_seq : Option ℕ) (types : List String)
    → Ascending b.seq 0 b.ring
    → IsOrdered b.seq (subscribe last_seq types b)
unfolding subscribe
subscribe-IsOrdered b last_seq types a =
    replay-IsOrdered b.seq b.ring (joining last_seq types b)
      record { order = subst (Ascending b.seq 0) (sym (append-nil b.ring)) a; bounded = refl }

pub resume-IsOrdered :
    (b : EventBus) (s : Subscriber) → IsOrdered b.seq s → IsOrdered b.seq (resume b s)
unfolding resume
resume-IsOrdered b s o = from s.stage o
  where
    from :
        (stage : Stage)
        → IsOrdered b.seq (record s { stage = stage })
        → IsOrdered b.seq (resume_from stage b.seq (record s { stage = stage }))
    from (replaying started rest) o' = elim (Bool-cases (b.seq == started)) [
      | inl q ↦
          rw q (replay-IsOrdered started rest (record s { stage = replaying started rest }) o')
      | inr q ↦
          rw q (finish-IsOrdered interrupted (record s { stage = replaying started rest }) refl o')
    ]
    from live o' = take-IsOrdered s.queue s o'
    from ended o' = o'
    from interrupted o' = o'

unsubscribe-IsOrdered : {seq : ℕ} (s : Subscriber) → IsOrdered seq s → IsOrdered seq (unsubscribe s)
unfolding unsubscribe put_nowait
unsubscribe-IsOrdered {seq} s o = record {
  order = elim (Bool-cases (leb subscriber_queue_size (length s.queue))) [
    | inl q ↦ rw q o.order
    | inr q ↦ rw q (rw (events_of-none s.queue) o.order)
  ];
  bounded = put-bounded none s.queue o.bounded;
}

aclose-IsOrdered : {seq : ℕ} (s : Subscriber) → IsOrdered seq s → IsOrdered seq (aclose s)
unfolding aclose
aclose-IsOrdered {seq} s o = from s.stage o
  where
    from :
        (stage : Stage)
        → IsOrdered seq (record s { stage = stage })
        → IsOrdered seq (close_from stage (record s { stage = stage }))
    from (replaying started rest) o' =
        finish-IsOrdered ended (record s { stage = replaying started rest }) refl o'
    from live o' = finish-IsOrdered ended (record s { stage = live }) refl o'
    from ended o' = o'
    from interrupted o' = o'

-- One subscriber of the list changes.
All-replace :
    (P : Subscriber → Type 0) (before after : List Subscriber) (s t : Subscriber)
    → (P s → P t)
    → All P (before ++ s ∷ after)
    → All P (before ++ t ∷ after)
All-replace P [] after s t f (p, ps) = (f p, ps)
All-replace P (x ∷ before) after s t f (p, ps) = (p, All-replace P before after s t f ps)

All-map :
    (P Q : Subscriber → Type 0) (f : Subscriber → Subscriber) (ss : List Subscriber)
    → ((s : Subscriber) → P s → Q (f s))
    → All P ss
    → All Q (map f ss)
All-map P Q f [] g ps = tt
All-map P Q f (s ∷ ss) g (p, ps) = (g s p, All-map P Q f ss g ps)

ring-order :
    {seq : ℕ} (event : Event) (ring : List Event)
    → ltb seq event.seq ≡ true
    → Ascending seq 0 ring
    → Ascending event.seq 0 (ring_append event ring)
unfolding ring_append drop
ring-order event ring l a = elim (Bool-cases (leb ring_buffer_size (length ring))) [
  | inl q ↦ rw q (more (drop 1 ring) event l (tail ring a))
  | inr q ↦ rw q (more ring event l a)
]
  where
    tail : {seq : ℕ} (es : List Event) → Ascending seq 0 es → Ascending seq 0 (drop 1 es)
    tail [] a = a
    tail (e ∷ es) a = less [] e es a

ring-bounded :
    (event : Event) (ring : List Event)
    → leb (length ring) ring_buffer_size ≡ true
    → leb (length (ring_append event ring)) ring_buffer_size ≡ true
unfolding ring_append drop
ring-bounded event ring b = elim (Bool-cases (leb ring_buffer_size (length ring))) [
  | inl q ↦ rw q (rw (length-append (drop 1 ring) (event ∷ [])) (tail ring b q))
  | inr q ↦ rw q (rw (length-append ring (event ∷ [])) (ground (arith, q)))
]
  where
    tail :
        (es : List Event)
        → leb (length es) ring_buffer_size ≡ true
        → leb ring_buffer_size (length es) ≡ true
        → leb (length (drop 1 es) + 1) ring_buffer_size ≡ true
    tail [] b q = refl
    tail (e ∷ es) b q = ground (arith, b)

Step-IsBus : {b c : EventBus} → Step b c → IsBus b → IsBus c
unfolding publish
Step-IsBus {b} (published event_type payload occurred_at) i =
    let event = (publish event_type payload occurred_at b).0 in
    record {
      ring_order = ring-order event b.ring (ground arith) i.ring_order;
      ring_bounded = ring-bounded event b.ring i.ring_bounded;
      each =
          All-map (IsOrdered b.seq) (IsOrdered (b.seq + 1)) (deliver_to event) b.subscribers
            (λ s o. deliver-IsOrdered event s refl o) i.each;
    }
Step-IsBus {b} (joined last_seq types) i = record {
  ring_order = i.ring_order;
  ring_bounded = i.ring_bounded;
  each = (subscribe-IsOrdered b last_seq types i.ring_order, i.each);
}
Step-IsBus {b} (resumed before after s e) i = record {
  ring_order = i.ring_order;
  ring_bounded = i.ring_bounded;
  each =
      All-replace (IsOrdered b.seq) before after s (resume b s) (resume-IsOrdered b s)
        (subst (All (IsOrdered b.seq)) e i.each);
}
Step-IsBus {b} (removed before after s e) i = record {
  ring_order = i.ring_order;
  ring_bounded = i.ring_bounded;
  each =
      All-replace (IsOrdered b.seq) before after s (unsubscribe s) (unsubscribe-IsOrdered s)
        (subst (All (IsOrdered b.seq)) e i.each);
}
Step-IsBus {b} (closed before after s e) i = record {
  ring_order = i.ring_order;
  ring_bounded = i.ring_bounded;
  each =
      All-replace (IsOrdered b.seq) before after s (aclose s) (aclose-IsOrdered s)
        (subst (All (IsOrdered b.seq)) e i.each);
}

All-In :
    {s : Subscriber} (P : Subscriber → Type 0) (ss : List Subscriber) → In s ss → All P ss → P s
All-In P [] m ps = elim m [ ]
All-In P (x ∷ ss) (here e) (p, ps) = subst P (sym e) p
All-In P (x ∷ ss) (there m) (p, ps) = All-In P ss m ps

pub Reach-IsBus : {b : EventBus} → Reach b → IsBus b
Reach-IsBus start = record { ring_order = last refl; ring_bounded = refl; each = tt }
Reach-IsBus (next r st) = Step-IsBus st (Reach-IsBus r)

-- However publications and the runs, closes and removals of subscribers follow each other from an
-- empty bus, the events that a subscriber was given have rising sequence numbers, so none comes
-- twice or late, its queue holds at most 100 items, and the ring of the bus at most 200 events.
pub yielded_ordered :
    {b : EventBus} (s : Subscriber)
    → Reach b
    → In s b.subscribers
    → Ascending b.seq 0 s.yielded
      × (leb (length s.queue) subscriber_queue_size ≡ true)
      × (leb (length b.ring) ring_buffer_size ≡ true)
yielded_ordered {b} s r m =
    let i = Reach-IsBus r in
    let o = All-In (IsOrdered b.seq) b.subscribers m i.each in
    (front s.yielded (rest_of s.stage ++ events_of s.queue) o.order, o.bounded, i.ring_bounded)
