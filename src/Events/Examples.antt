-- ===== src/Events/Examples.antt =====
-- A bus with a few events and its subscribers.
use bridle.Prelude.{
  refl, none, some, here, nat_eq, string_eq, ℕ, String, ◌∷◌, [], ◌≡◌, false, In, ◌↔◌, leb, length,
  Option, true,
}
use bridle.Prelude.Json.{null}
use bridle.Events.Bus.{
  Event, Subscriber, EventBus, live, interrupted, empty_bus, subscribe, publish, resume,
  ring_append, deliver_to, replay_on, is_other, take_on, deliver, put_nowait,
}
use bridle.Events.Order.{Reach, Ascending, published, joined, resumed, start, next}
use bridle.Events.Sound.{yielded_ordered}
use bridle.Events.Replay.{replay_complete, publish_interrupts, resumes, IsAfter, IsOneOf}

abbrev event : ℕ → String → Event
event n event_type = record {
  seq = n;
  event_type = event_type;
  occurred_at = "2026";
  payload = null;
}

abbrev after : String → EventBus → EventBus
after event_type bus = (publish event_type null "2026" bus).1

abbrev three : EventBus
three = after "run" (after "plan" (after "run" empty_bus))

three-Reach : Reach three
three-Reach =
    next (next (next start (published "run" null "2026")) (published "plan" null "2026"))
      (published "run" null "2026")

-- A reader that has seen the first event and asks for one type.
abbrev again : Subscriber
again = resumes 3 three (subscribe (some 1) ("run" ∷ []) three)

replay_complete_example :
    (again.stage ≡ live)
    × Ascending 3 0 again.yielded
    × ((e : Event)
        → In e again.yielded ↔ (In e three.ring × IsAfter (some 1) e × IsOneOf ("run" ∷ []) e))
unfolding publish ring_append
replay_complete_example = replay_complete (some 1) ("run" ∷ []) three-Reach

again_yielded : again.yielded ≡ event 3 "run" ∷ []
unfolding publish ring_append subscribe replay_on take_on resume is_other string_eq nat_eq
again_yielded = refl

-- It stands at the `yield` of the first event.
abbrev reader : Subscriber
reader = subscribe none [] three

reader_yielded : reader.yielded ≡ event 1 "run" ∷ []
unfolding publish ring_append subscribe replay_on is_other
reader_yielded = refl

abbrev lost : Subscriber
lost = resume (after "done" three) (deliver_to (event 4 "done") reader)

publish_interrupts_example :
    (lost.stage ≡ interrupted)
    × (lost.subscribed ≡ false)
    × (lost.yielded ≡ reader.yielded)
    × (resume three lost ≡ lost)
    × (deliver_to (event 5 "run") lost ≡ lost)
unfolding publish ring_append subscribe replay_on is_other
publish_interrupts_example =
    publish_interrupts three reader (event 2 "plan" ∷ event 3 "run" ∷ []) "done" null "2026" three
      (event 5 "run") refl

-- On an empty ring a subscriber waits in `get()`, and what is published next is delivered.
abbrev early : Subscriber
early = subscribe none [] empty_bus

early_delivered :
    (resume (after "run" empty_bus) (deliver_to (event 1 "run") early)).yielded ≡ event 1 "run" ∷ []
unfolding publish subscribe replay_on take_on resume is_other deliver put_nowait
early_delivered = refl

abbrev waiting : EventBus
waiting = record empty_bus { subscribers = early ∷ [] }

abbrev served : EventBus
served = record (after "run" waiting) {
  subscribers = resume (after "run" waiting) (deliver_to (event 1 "run") early) ∷ [];
}

served-Reach : Reach served
unfolding publish subscribe
served-Reach =
    next (next (next start (joined none [])) (published "run" null "2026"))
      (resumed [] [] (deliver_to (event 1 "run") early) refl)

yielded_ordered_example :
    Ascending 1 0 (event 1 "run" ∷ [])
    × (leb (length {A = Option Event} []) 100 ≡ true)
    × (leb (length served.ring) 200 ≡ true)
unfolding publish subscribe replay_on take_on resume is_other deliver put_nowait
yielded_ordered_example =
    yielded_ordered (resume (after "run" waiting) (deliver_to (event 1 "run") early)) served-Reach
      (here refl)
