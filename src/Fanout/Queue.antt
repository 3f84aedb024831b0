-- ===== src/Fanout/Queue.antt =====
-- internal/stream/fanout/subscription.go: the pending packets of one subscriber, in a ring that grows.
pub mod Contents
pub mod Room
pub mod Push
pub mod Take
use mahiron.Prelude.{
  ℕ, zero, suc, ◌+◌, ◌-◌, ◌%◌, Bool, true, false, ◌&&◌, ◌||◌, Option, none, some, List, [], ◌∷◌,
  ◌++◌, ltb, leb, ◌==◌, if◌then◌else◌, length, get_or, set, take, drop, replicate,
}

-- A `[]byte`. A nil slice is the empty one.
abbrev pub Packet : Type 0
Packet = List ℕ

pub record PacketQueue : Type 0 where
  pub ring : List Packet
  pub head : ℕ
  pub count : ℕ
  pub bytes : ℕ
  pub closed : Bool

unfoldable pub new_packet_queue : PacketQueue
new_packet_queue = record { ring = replicate 64 []; head = 0; count = 0; bytes = 0; closed = false }

-- `q.ring[q.head]` panics outside the ring, here `none`. The callers hold `count > 0`, and `bytes`
-- is the sum of the lengths (`IsValid`), so that the two subtractions do not go below 0.
unfoldable pub pop_locked : PacketQueue → Option (Packet × PacketQueue)
pop_locked q =
    let packet = get_or q.ring q.head [] in
    let rest = record q {
      ring = set q.ring q.head [];
      head = (q.head + 1) % length q.ring;
      count = q.count - 1;
      bytes = q.bytes - length packet;
    } in
    if ltb q.head (length q.ring) then some (packet, rest) else none

-- The first loop of `push`, on fuel: each round lowers `count`.
unfoldable pub make_room : ℕ → PacketQueue → ℕ → ℕ → ℕ → Option (ℕ × PacketQueue)
make_room zero q size limit dropped = some (dropped, q)
make_room (suc fuel) q size limit dropped = elim (ltb 0 q.count && ltb limit (q.bytes + size)) [
  | false ↦ some (dropped, q)
  | true ↦ elim (pop_locked q) [
    | none ↦ none
    | some (packet, q') ↦ make_room fuel q' size limit (dropped + length packet)
  ]
]

-- `make([][]byte, 2*len(q.ring))` with the two copies.
unfoldable pub grow : PacketQueue → PacketQueue
grow q =
    if q.count == length q.ring
    then record q {
      ring = drop q.head q.ring ++ (take q.head q.ring ++ replicate (length q.ring) []);
      head = 0;
    }
    else q

unfoldable pub append_packet : PacketQueue → Packet → PacketQueue
append_packet q packet = record q {
  ring = set q.ring ((q.head + q.count) % length q.ring) packet;
  count = q.count + 1;
  bytes = q.bytes + length packet;
}

-- The bytes dropped, and the queue. The signal on `ready` only wakes the writer.
unfoldable pub push : PacketQueue → Packet → ℕ → Option (ℕ × PacketQueue)
unfolding make_room grow append_packet pop_locked
push q packet limit = elim (make_room (q.count + 1) q (length packet) limit 0) [
  | none ↦ none
  | some (dropped, q') ↦
      if ltb limit (q'.bytes + length packet)
      then some (dropped + length packet, q')
      else some (dropped, append_packet (grow q') packet)
]

unfoldable pub close : PacketQueue → PacketQueue
close q = record q { closed = true }

-- The inner loop of `take`.
unfoldable pub take_loop :
    ℕ → PacketQueue → ℕ → ℕ → List Packet → Option (List Packet × PacketQueue)
take_loop zero q size max dst = some (dst, q)
take_loop (suc fuel) q size max dst =
    elim (ltb 0 q.count && (size == 0 || leb (size + length (get_or q.ring q.head [])) max)) [
      | false ↦ some (dst, q)
      | true ↦ elim (pop_locked q) [
        | none ↦ none
        | some (packet, q') ↦ take_loop fuel q' (size + length packet) max (dst ++ (packet ∷ []))
      ]
    ]

-- One pass of `take`: `blocked` is the wait on `ready`, after which the source starts again.
pub data Taken : Type 0 where
  panic : Taken
  blocked : Taken
  drained : List Packet → Taken
  got : List Packet → PacketQueue → Taken

unfoldable pub take_packets : PacketQueue → List Packet → ℕ → Taken
unfolding take_loop pop_locked
take_packets q dst max =
    if ltb 0 q.count
    then elim (take_loop (q.count + 1) q 0 max dst) [ none ↦ panic | some (dst', q') ↦ got dst' q' ]
    else if q.closed
    then drained dst
    else blocked
