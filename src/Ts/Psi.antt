-- ===== src/Ts/Psi.antt =====
-- ts/psi.go, ts/descriptors.go, ts/pat.go and ts/pmt.go: the header of a section, descriptors, the program
-- association table and the program map tables.
use mahiron.Prelude.{
  ℕ, zero, suc, ◌+◌, ◌-◌, ◌*◌, ◌/◌, ◌%◌, ◌^◌, Bool, true, false, not, ◌&&◌, ◌||◌, Option, none,
  some, List, [], ◌∷◌, ◌++◌, ltb, leb, ◌==◌, if◌then◌else◌, length, take, drop,
}
use mahiron.Prelude.Dict.{Dict, insert}
use mahiron.Ts.{byte_at, has_bit}
use mahiron.Ts.Sections.{Section, section_length, total_length, validate_crc, crc32_mpeg2}
pub mod Crc
pub mod Built

-- `uint16(b[i])<<8 | uint16(b[i+1])`, and with the upper bits of the first byte masked off.
abbrev pub u16_at : List ℕ → ℕ → ℕ
u16_at b i = byte_at b i * 256 + byte_at b (i + 1)

abbrev pub pid_at : List ℕ → ℕ → ℕ
pid_at b i = byte_at b i % 0x20 * 256 + byte_at b (i + 1)

abbrev pub length_at : List ℕ → ℕ → ℕ
length_at b i = byte_at b i % 16 * 256 + byte_at b (i + 1)

-- `b[i:j]`
abbrev pub slice : ℕ → ℕ → List ℕ → List ℕ
slice i j b = drop i (take j b)

abbrev pub table_id : Section → ℕ
table_id s = byte_at s 0

-- The IDs of the transport stream, the original network and the service are read from the same
-- bytes.
pub record SectionHeader : Type 0 where
  pub table_id : ℕ
  pub section_syntax_indicator : Bool
  pub section_length : ℕ
  pub transport_stream_id : ℕ
  pub original_network_id : ℕ
  pub service_id : ℕ
  pub version_number : ℕ
  pub current_next_indicator : Bool
  pub section_number : ℕ
  pub last_section_number : ℕ

-- `none` for ErrInvalidSection, here and below.
unfoldable pub parse_section_header : Section → Option SectionHeader
parse_section_header s =
    if ltb (length s) 8 || ltb (length s) (total_length s)
    then none
    else some (record {
      table_id = table_id s;
      section_syntax_indicator = has_bit 0x80 (byte_at s 1);
      section_length = section_length s;
      transport_stream_id = u16_at s 3;
      original_network_id = u16_at s 3;
      service_id = u16_at s 3;
      version_number = byte_at s 5 / 2 % 32;
      current_next_indicator = has_bit 1 (byte_at s 5);
      section_number = byte_at s 6;
      last_section_number = byte_at s 7;
    })

abbrev pub Descriptor : Type 0
Descriptor = List ℕ

abbrev pub tag : Descriptor → ℕ
tag d = byte_at d 0

abbrev pub data_of : Descriptor → List ℕ
data_of d = slice 2 (2 + byte_at d 1) d

-- The loop of `ParseDescriptors`, on fuel: each round takes at least 2 bytes.
unfoldable pub descriptors_loop : ℕ → List ℕ → List Descriptor
descriptors_loop zero b = []
descriptors_loop (suc fuel) b =
    let size = 2 + byte_at b 1 in
    elim (leb 2 (length b) && leb size (length b)) [
      | false ↦ []
      | true ↦ take size b ∷ descriptors_loop fuel (drop size b)
    ]

unfoldable pub parse_descriptors : List ℕ → List Descriptor
unfolding descriptors_loop
parse_descriptors b = descriptors_loop (length b) b

pub record Pat : Type 0 where
  pub transport_stream_id : ℕ
  pub version_number : ℕ
  pub network_pid : ℕ
  pub programs : Dict ℕ

-- The loop of `ParsePAT` over the entries of 4 bytes before `end`, on fuel.
unfoldable pub pat_loop : ℕ → Section → ℕ → ℕ → Pat → Pat
pat_loop zero s end off pat = pat
pat_loop (suc fuel) s end off pat =
    let program = u16_at s off in
    let pid = pid_at s (off + 2) in
    elim (leb (off + 4) end) [
      | false ↦ pat
      | true ↦ pat_loop fuel s end (off + 4) (
          if program == 0
          then record pat { network_pid = pid }
          else record pat { programs = insert program pid pat.programs })
    ]

unfoldable pub parse_pat : Section → Option Pat
unfolding pat_loop parse_section_header
parse_pat s =
    if ltb (length s) 12
      || not (table_id s == 0)
      || ltb (length s) (total_length s)
      || not (validate_crc s)
    then none
    else elim (parse_section_header s) [
      | none ↦ none
      | some header ↦ some (
          pat_loop (length s) s (total_length s - 4) 8 (record {
            transport_stream_id = header.transport_stream_id;
            version_number = header.version_number;
            network_pid = 0;
            programs = [];
          }))
    ]

-- A uint32, the most significant byte first.
abbrev pub u32_bytes : ℕ → List ℕ
u32_bytes n = (n / 2 ^ 24 % 256) ∷ (n / 2 ^ 16 % 256) ∷ (n / 2 ^ 8 % 256) ∷ (n % 256) ∷ []

-- `BuildPATSection` up to the CRC. The arguments are of 16, 16, 16 and 8 bits.
abbrev pub pat_bytes : ℕ → ℕ → ℕ → ℕ → List ℕ
pat_bytes transport_stream_id service_id pmt_pid version =
    0
    ∷ 0xb0
    ∷ 13
    ∷ (transport_stream_id / 256)
    ∷ (transport_stream_id % 256)
    ∷ (0xc1 + version % 32 * 2)
    ∷ 0
    ∷ 0
    ∷ (service_id / 256)
    ∷ (service_id % 256)
    ∷ (0xe0 + pmt_pid / 256)
    ∷ (pmt_pid % 256)
    ∷ []

unfoldable pub build_pat_section : ℕ → ℕ → ℕ → ℕ → Option Section
build_pat_section transport_stream_id service_id pmt_pid version =
    let bytes = pat_bytes transport_stream_id service_id pmt_pid version in
    if ltb 0x1fff pmt_pid then none else some (bytes ++ u32_bytes (crc32_mpeg2 bytes))

pub record PmtElement : Type 0 where
  pub stream_type : ℕ
  pub elementary_pid : ℕ
  pub es_info : List ℕ
  pub descriptors : List Descriptor

pub record Pmt : Type 0 where
  pub program_number : ℕ
  pub version_number : ℕ
  pub pcr_pid : ℕ
  pub program_info : List ℕ
  pub descriptors : List Descriptor
  pub elements : List PmtElement

-- The loop of `ParsePMT`, on fuel: each round takes at least 5 bytes.
unfoldable pub elements_loop : ℕ → Section → ℕ → ℕ → Option (List PmtElement)
unfolding parse_descriptors
elements_loop zero s end off = none
elements_loop (suc fuel) s end off =
    let info_end = off + 5 + length_at s (off + 3) in
    let info = slice (off + 5) info_end s in
    elim (leb (off + 5) end) [
      | false ↦ some []
      | true ↦ elim (ltb end info_end) [
        | true ↦ none
        | false ↦ elim (elements_loop fuel s end info_end) [
          | none ↦ none
          | some elements ↦ some (
              record {
                stream_type = byte_at s off;
                elementary_pid = pid_at s (off + 1);
                es_info = info;
                descriptors = parse_descriptors info;
              }
              ∷ elements)
        ]
      ]
    ]

unfoldable pub parse_pmt : Section → Option Pmt
unfolding elements_loop parse_section_header parse_descriptors
parse_pmt s =
    let info_end = 12 + length_at s 10 in
    let end = total_length s - 4 in
    if ltb (length s) 16
      || not (table_id s == 2)
      || ltb (length s) (total_length s)
      || not (validate_crc s)
    then none
    else elim (parse_section_header s) [
      | none ↦ none
      | some header ↦
          if ltb end info_end then none else elim (elements_loop (length s + 1) s end info_end) [
            | none ↦ none
            | some elements ↦ some (record {
              program_number = header.service_id;
              version_number = header.version_number;
              pcr_pid = pid_at s 8;
              program_info = slice 12 info_end s;
              descriptors = parse_descriptors (slice 12 info_end s);
              elements = elements;
            })
          ]
    ]
