-- ===== src/Tests/Queue.antt =====
-- internal/stream/fanout/subscription.go, run.
use mahiron.Prelude.{ℕ, ◌≡◌, ◌<◌, ◌⊎◌, refl, false, some, List, [], ◌∷◌, if◌then◌else◌, arith}
use mahiron.Fanout.Queue.{
  Packet, PacketQueue, new_packet_queue, push, take_packets, got, drained, blocked, close,
}
use mahiron.Fanout.Queue.Contents.{contents, window}
use mahiron.Fanout.Queue.Room.{IsValid}
use mahiron.Fanout.Queue.Push.{Pushed, push_refines}
use mahiron.Fanout.Queue.Take.{Batch, take_refines}

-- Full, and wrapped around.
abbrev two_packets : PacketQueue
two_packets = record {
  ring = (3 ∷ []) ∷ (1 ∷ 2 ∷ []) ∷ [];
  head = 1;
  count = 2;
  bytes = 3;
  closed = false;
}

two_packets-IsValid : IsValid two_packets
unfolding contents window
two_packets-IsValid = record { inside = omega arith; fits = omega arith; counted = refl }

-- The oldest packet makes way.
pushed :
    push two_packets (7 ∷ 8 ∷ []) 3
    ≡ some (
      2,
      record {
        ring = (3 ∷ []) ∷ (7 ∷ 8 ∷ []) ∷ [];
        head = 0;
        count = 2;
        bytes = 3;
        closed = false;
      },
    )
unfolding push
pushed = refl

-- The ring doubles, and a packet over the limit is dropped itself.
grown :
    push two_packets (4 ∷ []) 4
    ≡ some (
      0,
      record {
        ring = (1 ∷ 2 ∷ []) ∷ (3 ∷ []) ∷ (4 ∷ []) ∷ [] ∷ [];
        head = 0;
        count = 3;
        bytes = 4;
        closed = false;
      },
    )
unfolding push
grown = refl

push_refines_example :
    (d : ℕ) × (q' : PacketQueue) × (push two_packets (7 ∷ 8 ∷ []) 3 ≡ some (d, q'))
    × Pushed two_packets (7 ∷ 8 ∷ []) 3 d q'
push_refines_example = push_refines two_packets (7 ∷ 8 ∷ []) 3 two_packets-IsValid

take_refines_example :
    ((0 < two_packets.count)
      × (dst' : List Packet) × (q' : PacketQueue) × (take_packets two_packets [] 2 ≡ got dst' q')
      × Batch two_packets [] 0 2 dst' q')
    ⊎ ((two_packets.count ≡ 0)
        × (take_packets two_packets [] 2 ≡ (if two_packets.closed then drained [] else blocked)))
take_refines_example = take_refines two_packets [] 2 two_packets-IsValid

drained_after_close : take_packets (close new_packet_queue) [] 10 ≡ drained []
unfolding take_packets close new_packet_queue
drained_after_close = refl
