-- ===== src/Ts/Demux.antt =====
-- ts/demux.go: the state of a demultiplexer, and what its output views emit.
use mahiron.Prelude.{
  ℕ, zero, suc, ◌+◌, ◌-◌, ◌*◌, ◌/◌, ◌%◌, Bool, true, false, not, ◌&&◌, ◌||◌, Option, none, some,
  List, [], ◌∷◌, ◌++◌, ltb, leb, ◌==◌, if◌then◌else◌, length, take, drop, replicate, get_or, map,
}
use mahiron.Prelude.Maps.{put}
use mahiron.Prelude.Dict.{Dict, lookup}
use mahiron.Ts.{Packet, byte_at, pid, transport_error_indicator, is_null, valid_payload_offset}
use mahiron.Ts.Sections.{Section, SectionAssembler}
use mahiron.Ts.Psi.{Pat, build_pat_section}
use mahiron.Ts.TableSet.{TableSectionSet, is_some, new_section_set}
use mahiron.Ts.Packetize.{packetize_section}
pub mod Observe
pub mod Indexed
pub mod Accept
pub mod Reach
pub mod Views
pub mod Emitted
pub mod Counters

pub record DemuxProgram : Type 0 where
  pub pmt_pid : ℕ
  pub pids : ℕ → Bool
  pub section_pids : ℕ → Bool

pub record DemuxServiceOutput : Type 0 where
  pub generation : ℕ
  pub pat_counter : ℕ
  pub pat_index : ℕ
  pub pat_packets : List Packet

abbrev pub new_output : DemuxServiceOutput
new_output = record { generation = 0; pat_counter = 0; pat_index = 0; pat_packets = [] }

-- `pat_generation` counts to 2 ^ 64 in the source.
pub record Demuxer : Type 0 where
  pub assemblers : ℕ → Option SectionAssembler
  pub cat_emm : ℕ → Bool
  pub cat_sections : TableSectionSet
  pub pat : Option Pat
  pub pat_generation : ℕ
  pub pat_sections : TableSectionSet
  pub pmt_by_pid : ℕ → Option ℕ
  pub section_pids : ℕ → Bool
  pub programs : Dict DemuxProgram
  pub services : ℕ → Option DemuxServiceOutput

abbrev pub new_demuxer : Demuxer
new_demuxer = record {
  assemblers = λ p. none;
  cat_emm = λ p. false;
  cat_sections = new_section_set;
  pat = none;
  pat_generation = 0;
  pat_sections = new_section_set;
  pmt_by_pid = λ p. none;
  section_pids = λ p. false;
  programs = [];
  services = λ s. none;
}

-- `rebuildPATOutput`. A PMT PID has 13 bits, so that the table can be built.
unfoldable pub rebuild_pat_output : Demuxer → ℕ → DemuxServiceOutput → DemuxServiceOutput
unfolding build_pat_section packetize_section
rebuild_pat_output d service_id output = elim d.pat [
  | none ↦ output
  | some pat ↦ elim (lookup service_id pat.programs) [
    | none ↦ output
    | some pmt_pid ↦
        elim (build_pat_section pat.transport_stream_id service_id pmt_pid pat.version_number) [
          | none ↦ output
          | some section ↦ record output {
            pat_packets = (packetize_section 0 section 0).0;
            pat_index = 0;
            generation = d.pat_generation;
          }
        ]
  ]
]

abbrev pub output_of : Demuxer → ℕ → DemuxServiceOutput
output_of d service_id = elim (d.services service_id) [ none ↦ new_output | some output ↦ output ]

-- `rebuildPAT`
unfoldable pub rebuild_pat : Demuxer → ℕ → Demuxer
unfolding rebuild_pat_output
rebuild_pat d service_id = elim d.pat [
  | none ↦ d
  | some pat ↦ elim (lookup service_id pat.programs) [
    | none ↦ d
    | some pmt_pid ↦ record d {
      services =
          put d.services service_id
            (some (rebuild_pat_output d service_id (output_of d service_id)));
    }
  ]
]

unfoldable pub service_output : Demuxer → ℕ → Demuxer
unfolding rebuild_pat
service_output d service_id = elim (d.services service_id) [
  | some output ↦ d
  | none ↦
      rebuild_pat (record d { services = put d.services service_id (some new_output) }) service_id
]

abbrev pub common_service_pid : ℕ → Bool
common_service_pid p =
    p == 0x01
    || p == 0x10
    || p == 0x11
    || p == 0x12
    || p == 0x13
    || p == 0x14
    || p == 0x1e
    || p == 0x1f
    || p == 0x23
    || p == 0x24
    || p == 0x29

abbrev pub is_usable : Packet → Bool
is_usable p =
    length p == 188
    && not (transport_error_indicator p)
    && not (is_null p)
    && valid_payload_offset p

-- The upper half of the byte at 3 stays.
abbrev pub with_counter : Packet → ℕ → Packet
with_counter p counter = take 3 p ++ (byte_at p 3 / 16 * 16 + counter % 16) ∷ drop 4 p

-- The output with the table of the present generation.
abbrev pub current_output : Demuxer → ℕ → DemuxServiceOutput → DemuxServiceOutput
current_output d service_id output =
    if output.generation == d.pat_generation then output else rebuild_pat_output d service_id output

-- `servicePacket`: the packet to emit, if any, and the output.
unfoldable pub service_packet :
    Demuxer → ℕ → DemuxServiceOutput → Packet → Option Packet × DemuxServiceOutput
unfolding rebuild_pat_output
service_packet d service_id output packet =
    let current = current_output d service_id output in
    if not (is_usable packet) then (none, output) else elim (lookup service_id d.programs) [
      | none ↦ (none, output)
      | some program ↦
          if pid packet == 0
          then if length current.pat_packets == 0 then (none, current) else (
            some (
                with_counter (get_or current.pat_packets current.pat_index []) current.pat_counter),
            record current {
              pat_index = (current.pat_index + 1) % length current.pat_packets;
              pat_counter = (current.pat_counter + 1) % 16;
            },
          )
          else if common_service_pid (pid packet)
              || pid packet == program.pmt_pid
              || program.pids (pid packet)
              || d.cat_emm (pid packet)
          then (some packet, current)
          else (none, current)
    ]

unfoldable pub has_service : Demuxer → ℕ → Bool
has_service d service_id = is_some (lookup service_id d.programs)

unfoldable pub pat_ready : Demuxer → Bool
pat_ready d = is_some d.pat

unfoldable pub should_assemble : Demuxer → ℕ → Bool
should_assemble d p =
    p == 0x00
    || p == 0x01
    || p == 0x10
    || p == 0x11
    || p == 0x12
    || p == 0x14
    || p == 0x23
    || p == 0x24
    || p == 0x29
    || is_some (d.pmt_by_pid p)
    || d.section_pids p
