-- ===== src/Ts/Packetize.antt =====
-- ts/demux.go: `packetizeSection`, which cuts a section into packets.
use mahiron.Prelude.{
  ℕ, zero, suc, ◌+◌, ◌-◌, ◌*◌, ◌/◌, ◌%◌, Bool, true, false, ◌||◌, List, [], ◌∷◌, ◌++◌, ltb,
  if◌then◌else◌, length, take, drop, replicate,
}
use mahiron.Ts.{Packet}
use mahiron.Ts.Sections.{Section}
pub mod Bodies
pub mod Ends
pub mod Steps
pub mod Reassembled

-- A packet of 188 bytes: the start of the loop of `packetizeSection`, filled up with 0xff.
abbrev pub header_of : ℕ → Bool → ℕ → List ℕ
header_of p first counter =
    0x47
    ∷ (p / 256 + (if first then 0x40 else 0))
    ∷ (p % 256)
    ∷ (0x10 + counter % 16)
    ∷ (if first then 0 ∷ [] else [])

abbrev pub filled : List ℕ → List ℕ → Packet
filled header bytes =
    let used = header ++ take (188 - length header) bytes in
    used ++ replicate (188 - length used) 0xff

-- The loop of `packetizeSection`, on fuel, with the counter that it leaves.
unfoldable pub packetize_loop : ℕ → ℕ → Bool → List ℕ → ℕ → List Packet × ℕ
packetize_loop zero p first bytes counter = ([], counter)
packetize_loop (suc fuel) p first bytes counter = elim (first || ltb 0 (length bytes)) [
  | false ↦ ([], counter)
  | true ↦
      let header = header_of p first counter in
      let later =
        packetize_loop fuel p false (drop (188 - length header) bytes) ((counter + 1) % 16) in
      (filled header bytes ∷ later.0, later.1)
]

unfoldable pub packetize_section : ℕ → Section → ℕ → List Packet × ℕ
unfolding packetize_loop
packetize_section p section counter = packetize_loop (length section + 1) p true section counter
