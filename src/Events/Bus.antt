-- ===== src/Events/Bus.antt =====
-- backend/src/bridle/events/bus.py: `EventBus`. A subscriber is a generator with its queue.
use bridle.Prelude.Json.{Json}
use bridle.Prelude.{
  List, Option, [], ℕ, ◌++◌, String, ◌∷◌, some, Bool, false, if◌then◌else◌, ◌==◌, true, none, ◌||◌,
  not, leb, nat_eq, length, ◌+◌, contains, map, string_eq, drop,
}

abbrev pub ring_buffer_size : ℕ
ring_buffer_size = 200

abbrev pub subscriber_queue_size : ℕ
subscriber_queue_size = 100

pub record Event : Type 0 where
  pub seq : ℕ
  pub event_type : String
  pub occurred_at : String
  pub payload : Json

-- Where a generator is suspended: at a `yield` of the loop over the ring, which it began when `_seq`
-- was `started`, with the events that the iterator has still to give; at a `yield` of the loop over
-- the queue or in its `queue.get()`; or at its end, by a return, a close or the RuntimeError of the
-- iterator.
pub data Stage : Type 0 where
  replaying : (started : ℕ) (rest : List Event) → Stage
  live : Stage
  ended : Stage
  interrupted : Stage

-- `yielded` are the events that the generator gave to its caller so far, in order.
pub record Subscriber : Type 0 where
  pub queue : List (Option Event)
  pub subscribed : Bool
  pub last_seq : Option ℕ
  pub types : List String
  pub stage : Stage
  pub yielded : List Event

pub record EventBus : Type 0 where
  pub seq : ℕ
  pub ring : List Event
  pub subscribers : List Subscriber

abbrev pub empty_bus : EventBus
empty_bus = record { seq = 0; ring = []; subscribers = [] }

-- `deque.append` with its `maxlen`
unfoldable pub ring_append : Event → List Event → List Event
ring_append event ring =
    (if leb ring_buffer_size (length ring) then drop 1 ring else ring) ++ event ∷ []

-- `put_nowait`, which leaves a full queue as it is
unfoldable pub put_nowait : Option Event → List (Option Event) → List (Option Event)
put_nowait item queue =
    if leb subscriber_queue_size (length queue) then queue else queue ++ item ∷ []

unfoldable pub deliver : Event → List (Option Event) → List (Option Event)
deliver event queue =
    put_nowait (some event)
      (if leb subscriber_queue_size (length queue) then drop 1 queue else queue)

abbrev pub deliver_to : Event → Subscriber → Subscriber
deliver_to event s = if s.subscribed then record s { queue = deliver event s.queue } else s

unfoldable pub publish : String → Json → String → EventBus → Event × EventBus
publish event_type payload occurred_at bus =
    let event : Event = record {
      seq = bus.seq + 1;
      event_type = event_type;
      occurred_at = occurred_at;
      payload = payload;
    } in
    (
      event,
      record {
        seq = bus.seq + 1;
        ring = ring_append event bus.ring;
        subscribers = map (deliver_to event) bus.subscribers;
      },
    )

abbrev pub is_seen : Option ℕ → Event → Bool
is_seen none event = false
is_seen (some last_seq) event = leb event.seq last_seq

-- `if types and event.type not in types`
unfoldable pub is_other : List String → Event → Bool
is_other [] event = false
is_other (t ∷ ts) event = not (contains (t ∷ ts) event.event_type)

abbrev pub yields : Event → Subscriber → Subscriber
yields event s = record s { yielded = s.yielded ++ event ∷ [] }

-- The `finally` clause.
abbrev pub finish_at : Stage → Subscriber → Subscriber
finish_at stage s = record s { stage = stage; subscribed = false }

-- The loop over the queue, up to its next `yield`; on an empty queue the generator waits in `get()`.
unfoldable pub take_on : List (Option Event) → Subscriber → Subscriber
take_on [] s = record s { queue = [] }
take_on (none ∷ queue) s = finish_at ended (record s { queue = queue })
take_on (some event ∷ queue) s =
    if is_other s.types event then take_on queue s else yields event (record s { queue = queue })

-- The loop over the ring, up to its next `yield`, and what follows it.
unfoldable pub replay_on : ℕ → List Event → Subscriber → Subscriber
replay_on started [] s = take_on s.queue (record s { stage = live })
replay_on started (event ∷ rest) s =
    if is_seen s.last_seq event || is_other s.types event
    then replay_on started rest s
    else yields event (record s { stage = replaying started rest })

-- A subscriber with a new queue at the start of the loop over the ring.
abbrev pub joining : Option ℕ → List String → EventBus → Subscriber
joining last_seq types bus = record {
  queue = [];
  subscribed = true;
  last_seq = last_seq;
  types = types;
  stage = replaying bus.seq bus.ring;
  yielded = [];
}

-- `subscribe` up to its first suspension. The lock is free: no task is suspended while it holds it.
unfoldable pub subscribe : Option ℕ → List String → EventBus → Subscriber
subscribe last_seq types bus = replay_on bus.seq bus.ring (joining last_seq types bus)

abbrev pub resume_from : Stage → ℕ → Subscriber → Subscriber
resume_from (replaying started rest) seq s =
    if seq == started then replay_on started rest s else finish_at interrupted s
resume_from live seq s = take_on s.queue s
resume_from ended seq s = s
resume_from interrupted seq s = s

-- A generator runs from one suspension to the next. The iterator of a deque raises RuntimeError when
-- the deque has changed since the iterator was made, and only `publish` changes it.
unfoldable pub resume : EventBus → Subscriber → Subscriber
resume bus s = resume_from s.stage bus.seq s

unfoldable pub unsubscribe : Subscriber → Subscriber
unsubscribe s = record s { subscribed = false; queue = put_nowait none s.queue }

abbrev pub close_from : Stage → Subscriber → Subscriber
close_from (replaying started rest) s = finish_at ended s
close_from live s = finish_at ended s
close_from ended s = s
close_from interrupted s = s

-- The caller closes the generator.
unfoldable pub aclose : Subscriber → Subscriber
aclose s = close_from s.stage s
