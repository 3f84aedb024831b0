-- ===== src/Event.antt =====
-- internal/event/hub.go: the hub that keeps the last events and hands them to subscribers.
use mahiron.Prelude.{
  ℕ, ◌+◌, ◌-◌, Bool, true, false, not, String, Option, none, some, List, [], ◌∷◌, ◌++◌, ltb, ◌==◌,
  if◌then◌else◌, length, drop,
}
use mahiron.Prelude.Int.{ℤ, or_default}
use mahiron.Prelude.Maps.{put}
use mahiron.Prelude.Dict.{Dict, insert, keep_keys}
pub mod Sends
pub mod Reach
pub mod Log
pub mod Delivery

-- `Data`, the payload, are the bytes of the JSON text.
pub record Event : Type 0 where
  pub resource : String
  pub type_name : String
  pub payload : List ℕ
  pub time : ℕ

-- A channel of 128 events that `Subscribe` made, and the `sync.Once` of its `unsubscribe`.
pub record Channel : Type 0 where
  pub buffer : List Event
  pub is_closed : Bool
  pub once : Bool

-- The channels are numbered as they are made; a map from those to `struct{}`.
abbrev pub Subscribers : Type 0
Subscribers = Dict (Unit {0})

pub record Hub : Type 0 where
  pub capacity : ℕ
  pub log : List Event
  pub subscribers : Subscribers
  pub channels : ℕ → Channel
  pub made : ℕ

abbrev pub new_channel : Channel
new_channel = record { buffer = []; is_closed = false; once = false }

unfoldable pub new_with_capacity : ℤ → Hub
new_with_capacity capacity = record {
  capacity = or_default capacity 100;
  log = [];
  subscribers = [];
  channels = λ _. new_channel;
  made = 0;
}

unfoldable pub append_log : ℕ → List Event → Event → List Event
append_log capacity log event =
    let all = log ++ event ∷ [] in
    if ltb capacity (length all) then drop (length all - capacity) all else all

-- `select` with a `default`: a full channel loses the event. A send on a closed one panics.
unfoldable pub offer : Event → Channel → Channel
offer event c =
    if ltb (length c.buffer) 128 then record c { buffer = c.buffer ++ event ∷ [] } else c

unfoldable pub send : Event → Channel → Option Channel
unfolding offer
send event c = if c.is_closed then none else some (offer event c)

unfoldable pub send_each : Event → Subscribers → (ℕ → Channel) → Option (ℕ → Channel)
unfolding send
send_each event [] channels = some channels
send_each event ((ch, _) ∷ rest) channels = elim (send event (channels ch)) [
  | none ↦ none
  | some c ↦ send_each event rest (put channels ch c)
]

-- The part of both publishers that holds the lock.
unfoldable pub publish : Hub → Event → Option Hub
unfolding append_log send_each
publish h event = elim (send_each event h.subscribers h.channels) [
  | none ↦ none
  | some channels ↦ some (record h { log = append_log h.capacity h.log event; channels = channels })
]

unfoldable pub publish_event_raw : Hub → ℕ → String → String → List ℕ → Option Hub
unfolding publish
publish_event_raw h now resource type_name raw =
    publish h (record { resource = resource; type_name = type_name; payload = raw; time = now })

-- Data that have no JSON text are dropped.
unfoldable pub publish_event {ℓ} :
    {D : Type ℓ} → (D → Option (List ℕ)) → Hub → ℕ → String → String → D → Option Hub
unfolding publish_event_raw
publish_event marshal h now resource type_name value = elim (marshal value) [
  | none ↦ some h
  | some raw ↦ publish_event_raw h now resource type_name raw
]

-- The hub, and the channel that the caller receives from.
unfoldable pub subscribe : Hub → Hub × ℕ
subscribe h = (
  record h {
    subscribers = insert h.made tt h.subscribers;
    channels = put h.channels h.made new_channel;
    made = h.made + 1;
  },
  h.made,
)

-- Closing a closed channel panics.
unfoldable pub unsubscribe : Hub → ℕ → Option Hub
unsubscribe h ch =
    if (h.channels ch).once
    then some h
    else (if (h.channels ch).is_closed
        then none
        else some (record h {
          subscribers = keep_keys (λ j. not (j == ch)) h.subscribers;
          channels = put h.channels ch (record (h.channels ch) { is_closed = true; once = true });
        }))

-- A receive by the caller, where it does not wait.
unfoldable pub receive : Hub → ℕ → Option (Event × Hub)
receive h ch = elim (h.channels ch).buffer [
  | [] ↦ none
  | event ∷ rest ↦
      some (
        event,
        record h { channels = put h.channels ch (record (h.channels ch) { buffer = rest }) },
      )
]
