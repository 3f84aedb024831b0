-- ===== src/Ts/Sections.antt =====
-- ts/section.go: sections, their CRC, and how they are put together from packets.
use Prim.Native.Nat.{◌^◌, bit_xor}
use mahiron.Prelude.{
  ℕ, zero, suc, ◌+◌, ◌*◌, ◌/◌, ◌%◌, Bool, true, false, not, ◌&&◌, ◌||◌, List, [], ◌∷◌, ◌++◌, ltb,
  leb, ◌==◌, if◌then◌else◌, length, take, drop,
}
use mahiron.Ts.{
  Packet, byte_at, has_bit, transport_error_indicator, payload_unit_start_indicator, pid,
  has_payload, continuity_counter, payload,
}
pub mod Whole
pub mod Joined
pub mod Own

abbrev pub Section : Type 0
Section = List ℕ

abbrev pub section_length : Section → ℕ
section_length s = byte_at s 1 % 16 * 256 + byte_at s 2

abbrev pub total_length : Section → ℕ
total_length s = 3 + section_length s

-- One of the eight rounds of `makeCRC32MPEG2Table`, on a uint32.
abbrev pub crc_rounds : ℕ → ℕ → ℕ
crc_rounds zero crc = crc
crc_rounds (suc n) crc =
    let shifted = crc * 2 % 2 ^ 32 in
    crc_rounds n (if has_bit 0x80000000 crc then bit_xor shifted 0x04c11db7 else shifted)

-- The loop of `crc32MPEG2`; the table's entry is computed where it is read.
unfoldable pub crc_from : ℕ → List ℕ → ℕ
crc_from crc [] = crc
crc_from crc (b ∷ bs) =
    crc_from (bit_xor (crc * 256 % 2 ^ 32) (crc_rounds 8 (bit_xor (crc / 2 ^ 24) b % 256 * 2 ^ 24)))
      bs

unfoldable pub crc32_mpeg2 : List ℕ → ℕ
unfolding crc_from
crc32_mpeg2 bytes = crc_from 0xffffffff bytes

unfoldable pub validate_crc : Section → Bool
unfolding crc32_mpeg2
validate_crc s =
    if ltb (length s) 4 || ltb (length s) (total_length s)
    then false
    else crc32_mpeg2 (take (total_length s) s) == 0

pub record SectionAssembler : Type 0 where
  pub pid : ℕ
  pub buffer : List ℕ
  pub last_counter : ℕ
  pub expecting : Bool
  pub pending : List Section

abbrev pub new_section_assembler : ℕ → SectionAssembler
new_section_assembler pid = record {
  pid = pid;
  buffer = [];
  last_counter = 0;
  expecting = false;
  pending = [];
}

-- The sections that a call returns, and the state.
abbrev pub Assembled : Type 0
Assembled = List Section × SectionAssembler

abbrev pub with_valid : Section → List Section → List Section
with_valid s sections = if validate_crc s then s ∷ sections else sections

-- The loop of `consumePayload`, on fuel: each round takes at least 3 bytes.
unfoldable pub consume_payload : ℕ → SectionAssembler → List ℕ → Assembled
consume_payload zero sa bytes = ([], sa)
consume_payload (suc fuel) sa bytes =
    let total = total_length bytes in
    let later = consume_payload fuel sa (drop total bytes) in
    if not (leb 3 (length bytes) && not (byte_at bytes 0 == 0xff))
    then ([], sa)
    else if ltb (length bytes) total
    then ([], record sa { buffer = bytes; expecting = true })
    else (with_valid (take total bytes) later.0, later.1)

abbrev pub settled : SectionAssembler → SectionAssembler
settled sa = if length sa.buffer == 0 then record sa { expecting = false } else sa

-- The loop of `completeSections`, whose argument is false in every call, on fuel.
unfoldable pub complete_sections : ℕ → SectionAssembler → Assembled
complete_sections zero sa = ([], settled sa)
complete_sections (suc fuel) sa =
    let total = total_length sa.buffer in
    let later = complete_sections fuel (record sa { buffer = drop total sa.buffer }) in
    if ltb (length sa.buffer) 3
    then ([], settled sa)
    else if ltb (length sa.buffer) total
    then ([], record sa { expecting = true })
    else (with_valid (take total sa.buffer) later.0, later.1)

abbrev pub dropped : SectionAssembler → SectionAssembler
dropped sa = record sa { buffer = []; expecting = false }

-- A packet that starts a section: the end of the one before it, and those that start here.
unfoldable pub start_sections : SectionAssembler → List ℕ → Assembled
unfolding complete_sections consume_payload
start_sections sa bytes =
    let pointer = byte_at bytes 0 in
    let rest = drop 1 bytes in
    let buffer = sa.buffer ++ take pointer rest in
    let ended =
      if ltb 0 (length sa.buffer) && ltb 0 pointer
      then (complete_sections (length buffer) (record sa { buffer = buffer })).0
      else [] in
    let more = consume_payload (length rest) (dropped sa) (drop pointer rest) in
    if ltb (length rest) pointer then ([], dropped sa) else (ended ++ more.0, more.1)

-- `FeedAll` behind its first tests, with the packet's counter and payload.
unfoldable pub feed_payload : SectionAssembler → Bool → ℕ → List ℕ → Assembled
unfolding start_sections complete_sections
feed_payload sa starts counter bytes =
    let lost = sa.expecting && not (counter == (sa.last_counter + 1) % 16) in
    let sa₁ = record (if lost then dropped sa else sa) { last_counter = counter } in
    let buffer = sa₁.buffer ++ bytes in
    if starts
    then start_sections sa₁ bytes
    else if not sa₁.expecting
    then ([], sa₁)
    else complete_sections (length buffer) (record sa₁ { buffer = buffer })

unfoldable pub feed_all : SectionAssembler → Packet → Assembled
unfolding feed_payload
feed_all sa p =
    if not (pid p == sa.pid) || transport_error_indicator p || not (has_payload p)
    then ([], sa)
    else if length (payload p) == 0
    then ([], sa)
    else feed_payload sa (payload_unit_start_indicator p) (continuity_counter p) (payload p)

-- `Feed`: the first section that is left or found, `[]` for nil.
unfoldable pub feed : SectionAssembler → Packet → Section × SectionAssembler
unfolding feed_all
feed sa p = elim sa.pending [
  | s ∷ ss ↦ (s, record sa { pending = ss })
  | [] ↦
      let (sections, sa') = feed_all sa p in
      elim sections [ [] ↦ ([], sa') | s ∷ ss ↦ (s, record sa' { pending = sa'.pending ++ ss }) ]
]
