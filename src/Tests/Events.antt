-- ===== src/Tests/Events.antt =====
-- internal/event/hub.go, run.
use mahiron.Prelude.{◌≡◌, ◌≢◌, refl, none, some, [], ◌∷◌, ◌++◌, ℕ, arith}
use mahiron.Prelude.Int.{pos, negsuc}
use mahiron.Prelude.Maps.{put}
use mahiron.Event.{
  Event, Hub, new_channel, new_with_capacity, publish, publish_event, subscribe, unsubscribe,
  receive,
}
use mahiron.Event.Reach.{
  IsSound, publishes, subscribes, Reachable, begins, goes_on, Reachable-IsSound, Reachable-no_panic,
}
use mahiron.Event.Log.{publish_all, last_of, publish_all-log}
use mahiron.Event.Delivery.{Run, ends, an_event, a_receive, Delivers, Run-Delivers}

abbrev an_update : ℕ → Event
an_update n = record { resource = "program"; type_name = "update"; payload = n ∷ []; time = n }

-- With room for two events in the log, and one subscriber.
abbrev hub : Hub
hub = record {
  capacity = 2;
  log = [];
  subscribers = (0, tt) ∷ [];
  channels = put (λ _. new_channel) 0 new_channel;
  made = 1;
}

hub-Reachable : Reachable hub
unfolding subscribe new_with_capacity
hub-Reachable = goes_on (new_with_capacity (pos 2)) hub (begins (pos 2)) subscribes

Reachable-IsSound_example : IsSound hub
Reachable-IsSound_example = Reachable-IsSound hub hub-Reachable

Reachable-no_panic_example : publish hub (an_update 1) ≢ none
Reachable-no_panic_example =
    Reachable-no_panic hub (publish hub (an_update 1)) hub-Reachable (publishes (an_update 1))

publish_all-log_example :
    (h' : Hub) × (publish_all hub (an_update 1 ∷ an_update 2 ∷ an_update 3 ∷ []) ≡ some h')
    × (h'.log ≡ last_of hub.capacity (hub.log ++ an_update 1 ∷ an_update 2 ∷ an_update 3 ∷ []))
publish_all-log_example =
    publish_all-log hub (an_update 1 ∷ an_update 2 ∷ an_update 3 ∷ []) hub-Reachable

last_two : last_of 2 (an_update 1 ∷ an_update 2 ∷ an_update 3 ∷ []) ≡ an_update 2 ∷ an_update 3 ∷ []
last_two = refl

abbrev with_one : Hub
with_one = record hub {
  log = an_update 1 ∷ [];
  channels = put hub.channels 0 (record new_channel { buffer = an_update 1 ∷ [] });
}

abbrev with_two : Hub
with_two = record hub {
  log = an_update 1 ∷ an_update 2 ∷ [];
  channels =
      put with_one.channels 0 (record new_channel { buffer = an_update 1 ∷ an_update 2 ∷ [] });
}

abbrev after_receive : Hub
after_receive = record with_two {
  channels = put with_two.channels 0 (record new_channel { buffer = an_update 2 ∷ [] });
}

first_published : publish hub (an_update 1) ≡ some with_one
unfolding publish
first_published = refl

second_published : publish with_one (an_update 2) ≡ some with_two
unfolding publish
second_published = refl

one_received : receive with_two 0 ≡ some (an_update 1, after_receive)
unfolding receive
one_received = refl

two_published_one_received :
    Run 0 hub (an_update 1 ∷ an_update 2 ∷ []) (an_update 1 ∷ []) after_receive
two_published_one_received =
    an_event hub with_one after_receive (an_update 1) (an_update 2 ∷ []) (an_update 1 ∷ [])
      first_published
      (an_event with_one with_two after_receive (an_update 2) [] (an_update 1 ∷ []) second_published
        (a_receive with_two after_receive after_receive (an_update 1) [] [] one_received
          (ends after_receive)))

Run-Delivers_example :
    Delivers [] (an_update 1 ∷ an_update 2 ∷ []) (an_update 1 ∷ []) (an_update 2 ∷ [])
Run-Delivers_example =
    Run-Delivers 0 hub after_receive (an_update 1 ∷ an_update 2 ∷ []) (an_update 1 ∷ [])
      hub-Reachable (omega arith, refl) two_published_one_received

-- Data that cannot be written as JSON are not published.
no_json : publish_event (λ (n : ℕ). none) hub 1 "program" "update" 3 ≡ some hub
unfolding publish_event
no_json = refl

-- After its caller left, a channel keeps what waits in it; leaving again changes nothing.
left_twice :
    (h' : Hub) × (unsubscribe with_one 0 ≡ some h')
    × (unsubscribe h' 0 ≡ some h')
    × (h'.subscribers ≡ [])
    × ((h'.channels 0).buffer ≡ an_update 1 ∷ [])
unfolding unsubscribe
left_twice = (_, refl, refl, refl, refl)

default_capacity : (new_with_capacity (negsuc 4)).capacity ≡ 100
unfolding new_with_capacity
default_capacity = refl
