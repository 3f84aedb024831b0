-- ===== src/Ts/Reader.antt =====
-- ts/packet.go: the reader that finds the packets in a stream of bytes.
use mahiron.Prelude.{
  ℕ, zero, suc, ◌+◌, ◌-◌, ◌%◌, ◌^◌, String, Bool, true, false, not, ◌&&◌, ◌||◌, Option, none, some,
  List, [], ◌∷◌, ◌++◌, ltb, leb, ◌==◌, if◌then◌else◌, length, take, drop,
}
use mahiron.Packets.{ReadResult, has_error}
use mahiron.Ts.{byte_at}
pub mod Kept
pub mod Looks
pub mod Found
pub mod Returned
pub mod Synced
pub mod Plain
pub mod Aligned

-- The reader below: a `Read` into a slice of some length.
abbrev pub Reading {ℓ} : Type ℓ → Type ℓ
Reading S = S → ℕ → ReadResult S

-- Errors are their texts. A stride of 0 is not known yet.
pub record PacketReader {ℓ} (S : Type ℓ) : Type ℓ where
  pub r : S
  pub buf : List ℕ
  pub stride : ℕ
  pub sync_losses : ℕ
  pub read_err : Option String

pub data Outcome : Type 0 where
  packet : List ℕ → Outcome
  failure : String → Outcome

unfoldable pub new_packet_reader {ℓ} : {S : Type ℓ} → S → PacketReader S
new_packet_reader r = record { r = r; buf = []; stride = 0; sync_losses = 0; read_err = none }

-- `stride == packetSizeWithTimestamp`
abbrev pub sync_offset : ℕ → ℕ
sync_offset stride = if stride == 192 then 4 else 0

-- How many of the next `left` places in the buffer have a sync byte; `none`: one has another byte.
unfoldable pub next_syncs : ℕ → List ℕ → ℕ → ℕ → Option ℕ
next_syncs zero buf stride next = some 0
next_syncs (suc left) buf stride next =
    let rest = next_syncs left buf stride (next + stride) in
    if ltb next (length buf)
    then (if byte_at buf next == 0x47
        then elim rest [ none ↦ none | some n ↦ some (suc n) ]
        else none)
    else some 0

-- `bytes.LastIndexByte`, from place `i` on; `found` is the last one before it.
abbrev pub last_sync : Option ℕ → ℕ → List ℕ → Option ℕ
last_sync found i [] = found
last_sync found i (b ∷ bytes) = last_sync (if b == 0x47 then some i else found) (i + 1) bytes

-- The bytes that come before the last sync byte are dropped.
unfoldable pub skip_garbage : List ℕ → List ℕ
skip_garbage buf = elim (last_sync none 0 buf) [
  | none ↦ buf
  | some i ↦ if ltb 0 i then drop i buf else buf
]

module _ {ℓ} {S : Type ℓ} where
  unfoldable pub is_confirmed : PacketReader S → ℕ → ℕ → Bool
  unfolding next_syncs
  is_confirmed pr pos stride =
      elim (next_syncs 3 pr.buf stride (pos + stride + sync_offset stride)) [
        | none ↦ false
        | some checks ↦ ltb 0 checks || has_error pr.read_err
      ]

  unfoldable pub consume_packet : PacketReader S → ℕ → ℕ → PacketReader S × Outcome
  consume_packet pr pos stride =
      let start = if stride == 192 then pos + 4 else pos in
      let stop = if stride == 204 then pos + 188 else pos + stride in
      (
        record pr { buf = drop (pos + stride) pr.buf },
        packet (take (stop - start) (drop start pr.buf)),
      )

  unfoldable pub lose_sync : PacketReader S → PacketReader S
  lose_sync pr =
      if pr.stride == 0
      then pr
      else record pr { stride = 0; sync_losses = (pr.sync_losses + 1) % 2 ^ 64 }

  abbrev pub fill_failure : PacketReader S → Option String
  fill_failure pr = if length pr.buf == 0 then pr.read_err else none

module _ {ℓ} {S : Type ℓ} (read_into : Reading S) where
  -- The loop of `fill`: each round reads a byte or ends, so that `min` rounds are enough.
  unfoldable pub fill_loop : ℕ → ℕ → PacketReader S → PacketReader S
  fill_loop zero least pr = pr
  fill_loop (suc fuel) least pr = elim (has_error pr.read_err || leb least (length pr.buf)) [
    | true ↦ pr
    | false ↦
        let got = read_into pr.r 4096 in
        let pr' : PacketReader S = record pr {
          r = got.next;
          buf = pr.buf ++ got.bytes;
          read_err = got.error;
        } in
        elim (has_error got.error || length got.bytes == 0) [
          | true ↦ pr'
          | false ↦ fill_loop fuel least pr'
        ]
  ]

  unfoldable pub fill : ℕ → PacketReader S → PacketReader S
  unfolding fill_loop
  fill least pr = fill_loop least least pr

  -- `fill`, where fewer than `stride` bytes are there and more may come.
  unfoldable pub fill_packet : PacketReader S → ℕ → ℕ → PacketReader S
  unfolding fill
  fill_packet pr pos stride =
      if ltb (length pr.buf - pos) stride && not (has_error pr.read_err)
      then fill (pos + stride) pr
      else pr

  unfoldable pub packet_ready_at : PacketReader S → ℕ → ℕ → PacketReader S × Bool
  unfolding is_confirmed fill_packet
  packet_ready_at pr pos stride =
      if leb (length pr.buf) (pos + sync_offset stride)
        || not (byte_at pr.buf (pos + sync_offset stride) == 0x47)
      then (pr, false)
      else (let pr' = fill_packet pr pos stride in
          (pr', not (ltb (length pr'.buf - pos) stride) && is_confirmed pr' pos stride))

  unfoldable pub first_ready : PacketReader S → ℕ → List ℕ → PacketReader S × Option ℕ
  unfolding packet_ready_at
  first_ready pr pos [] = (pr, none)
  first_ready pr pos (stride ∷ strides) =
      let (pr', ready) = packet_ready_at pr pos stride in
      elim ready [ true ↦ (pr', some stride) | false ↦ first_ready pr' pos strides ]

  -- The loop of `detectPacket`, on fuel; `none` is out of fuel. The buffer may grow in it.
  unfoldable pub detect_loop : ℕ → PacketReader S → ℕ → Option (PacketReader S × Option (ℕ × ℕ))
  unfolding first_ready
  detect_loop zero pr pos = none
  detect_loop (suc fuel) pr pos = elim (ltb pos (length pr.buf)) [
    | false ↦ some (pr, none)
    | true ↦
        let (pr', found) = first_ready pr pos (188 ∷ 192 ∷ 204 ∷ []) in
        elim found [
          | some stride ↦ some (pr', some (pos, stride))
          | none ↦ detect_loop fuel pr' (pos + 1)
        ]
  ]

  -- The packet at the start, where a stride is known.
  unfoldable pub ready_at_stride : PacketReader S → PacketReader S × Bool
  unfolding packet_ready_at
  ready_at_stride pr = if pr.stride == 0 then (pr, false) else packet_ready_at pr 0 pr.stride

  -- What is kept where no packet was found, with more bytes.
  unfoldable pub fill_more : PacketReader S → PacketReader S
  unfolding fill skip_garbage
  fill_more pr =
      let kept = skip_garbage pr.buf in fill (length kept + 816) (record pr { buf = kept })

  -- The loop of `NextInto`, on fuel; `bound` is the fuel of each detection.
  unfoldable pub next_loop : ℕ → ℕ → PacketReader S → Option (PacketReader S × Outcome)
  unfolding fill ready_at_stride lose_sync detect_loop consume_packet fill_more
  next_loop bound zero pr = none
  next_loop bound (suc fuel) pr =
      let pr1 = fill 816 pr in
      let (pr2, ready) = ready_at_stride pr1 in
      elim (length pr1.buf == 0) [
        | true ↦ some (pr1, failure (elim pr1.read_err [ none ↦ "EOF" | some e ↦ e ]))
        | false ↦ elim ready [
          | true ↦ some (consume_packet pr2 0 pr2.stride)
          | false ↦ elim (detect_loop bound (lose_sync pr2) 0) [
            | none ↦ none
            | some (pr3, found) ↦ elim found [
              | some (pos, stride) ↦
                  some (consume_packet (record pr3 { stride = stride }) pos stride)
              | none ↦ elim pr3.read_err [
                | some e ↦ some (pr3, failure e)
                | none ↦ elim (fill_failure (fill_more pr3)) [
                  | some e ↦ some (fill_more pr3, failure e)
                  | none ↦ next_loop bound fuel (fill_more pr3)
                ]
              ]
            ]
          ]
        ]
      ]

  -- `NextInto` a slice of some length.
  unfoldable pub next_into : ℕ → ℕ → PacketReader S → ℕ → Option (PacketReader S × Outcome)
  unfolding next_loop
  next_into bound fuel pr room =
      if ltb room 188 then some (pr, failure "short buffer") else next_loop bound fuel pr
