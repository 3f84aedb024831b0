-- ===== src/Ts.antt =====
-- ts/packet.go: the header of a transport stream packet.
use mahiron.Prelude.{
  ℕ, ◌+◌, ◌*◌, ◌/◌, ◌%◌, Bool, true, false, not, ◌&&◌, ◌||◌, List, [], ltb, leb, ◌==◌, Option, none,
  some, ◌^◌, if◌then◌else◌, length, get_or, drop,
}
pub mod Sections
pub mod Psi
pub mod TableSet
pub mod Packetize
pub mod Demux
pub mod Reader
pub mod Detector

-- Bytes. The readers return packets of 188 bytes, so that no access to the header panics.
abbrev pub Packet : Type 0
Packet = List ℕ

abbrev pub byte_at : List ℕ → ℕ → ℕ
byte_at bytes i = get_or bytes i 0

-- `b & mask != 0`, of a mask with one bit.
abbrev pub has_bit : ℕ → ℕ → Bool
has_bit mask b = b / mask % 2 == 1

unfoldable pub transport_error_indicator : Packet → Bool
transport_error_indicator p = has_bit 0x80 (byte_at p 1)

unfoldable pub payload_unit_start_indicator : Packet → Bool
payload_unit_start_indicator p = has_bit 0x40 (byte_at p 1)

unfoldable pub pid : Packet → ℕ
pid p = byte_at p 1 % 0x20 * 256 + byte_at p 2

unfoldable pub has_adaptation_field : Packet → Bool
has_adaptation_field p = leb 2 (byte_at p 3 / 16 % 4)

unfoldable pub has_payload : Packet → Bool
has_payload p = byte_at p 3 / 16 % 4 == 1 || byte_at p 3 / 16 % 4 == 3

unfoldable pub continuity_counter : Packet → ℕ
continuity_counter p = byte_at p 3 % 16

unfoldable pub adaptation_field_length : Packet → ℕ
unfolding has_adaptation_field
adaptation_field_length p =
    if ltb (length p) 188 || not (has_adaptation_field p) then 0 else byte_at p 4

unfoldable pub payload_offset : Packet → ℕ
unfolding has_adaptation_field adaptation_field_length
payload_offset p = if not (has_adaptation_field p) then 4 else 5 + adaptation_field_length p

unfoldable pub valid_payload_offset : Packet → Bool
unfolding has_adaptation_field payload_offset
valid_payload_offset p =
    if ltb (length p) 188
    then false
    else if has_adaptation_field p && ltb 188 (payload_offset p)
    then false
    else true

unfoldable pub payload : Packet → List ℕ
unfolding has_payload valid_payload_offset payload_offset
payload p =
    if not (has_payload p) || not (valid_payload_offset p) then [] else drop (payload_offset p) p

unfoldable pub is_null : Packet → Bool
unfolding pid
is_null p = pid p == 0x1fff

unfoldable pub discontinuity_indicator : Packet → Bool
unfolding has_adaptation_field adaptation_field_length
discontinuity_indicator p =
    leb 188 (length p)
    && has_adaptation_field p
    && leb 1 (adaptation_field_length p)
    && has_bit 0x80 (byte_at p 5)

-- The 33 bits of the base and the 9 bits of the extension.
unfoldable pub program_clock_reference : Packet → Option (ℕ × ℕ)
unfolding has_adaptation_field adaptation_field_length
program_clock_reference p =
    if ltb (length p) 188
      || not (has_adaptation_field p)
      || ltb (adaptation_field_length p) 7
      || not (has_bit 0x10 (byte_at p 5))
    then none
    else some (
      byte_at p 6 * 2 ^ 25
          + byte_at p 7 * 2 ^ 17
          + byte_at p 8 * 2 ^ 9
          + byte_at p 9 * 2
          + byte_at p 10 / 128,
      byte_at p 10 % 2 * 256 + byte_at p 11,
    )
