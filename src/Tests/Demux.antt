-- ===== src/Tests/Demux.antt =====
-- ts/pat.go, ts/demux.go and internal/stream/demux/demuxer.go, run.
use mahiron.Prelude.{
  ℕ, ◌+◌, ◌≡◌, refl, ap, true, false, some, List, [], ◌∷◌, ◌++◌, ◌==◌, length, replicate, arith,
}
use mahiron.Prelude.Dict.{lookup}
use mahiron.Ts.{
  Packet, pid, continuity_counter, has_payload, payload, discontinuity_indicator,
  transport_error_indicator, is_null, valid_payload_offset, payload_unit_start_indicator,
}
use mahiron.Ts.Sections.{Section, new_section_assembler, validate_crc, crc32_mpeg2, feed_all}
use mahiron.Ts.Sections.Whole.{IsWhole}
use mahiron.Ts.Psi.{u32_bytes, build_pat_section, parse_pat}
use mahiron.Ts.Psi.Crc.{crc32_mpeg2-append}
use mahiron.Ts.Psi.Built.{pat_section, single_program, parse_pat-build_pat_section}
use mahiron.Ts.Packetize.{header_of, filled, packetize_section}
use mahiron.Ts.Packetize.Steps.{feed_each}
use mahiron.Ts.Packetize.Reassembled.{feed_each-packetize_section}
use mahiron.Ts.Demux.{Demuxer, new_demuxer, new_output, service_packet, is_usable}
use mahiron.Ts.Demux.Observe.{feed_with_pid, new_program}
use mahiron.Ts.Demux.Indexed.{IsIndexed}
use mahiron.Ts.Demux.Reach.{Reachable, begins, feeds, Reachable-IsIndexed}
use mahiron.Ts.Demux.Views.{service_packet-pat}
use mahiron.Ts.Demux.Counters.{serve_each, CountsFrom, serve_each-CountsFrom}
use mahiron.Demux.{new_monitor, observe, is_watched}
use mahiron.Demux.Monitor.{drops, drops_of, packets_of, drops_of-drops}
use mahiron.Demux.Gaps.{after, gap, observe-next}
use mahiron.Demux.Tables.{serve_each_no_drops}

crc32_mpeg2-append_example : crc32_mpeg2 ((1 ∷ 2 ∷ []) ++ u32_bytes (crc32_mpeg2 (1 ∷ 2 ∷ []))) ≡ 0
crc32_mpeg2-append_example = crc32_mpeg2-append (1 ∷ 2 ∷ [])

parse_pat-build_pat_section_example :
    (s : Section) × (build_pat_section 0x7fe0 0x400 0x1f0 3 ≡ some s)
    × IsWhole s
    × (parse_pat s ≡ some (single_program 0x7fe0 0x400 0x1f0 3))
parse_pat-build_pat_section_example =
    parse_pat-build_pat_section 0x7fe0 0x400 0x1f0 3 (omega arith) (omega arith)

-- A section that takes two packets.
abbrev long_bytes : List ℕ
long_bytes = 0x42 ∷ 0xb0 ∷ 250 ∷ replicate 246 7

abbrev long_section : Section
long_section = long_bytes ++ u32_bytes (crc32_mpeg2 long_bytes)

long_section-IsWhole : IsWhole long_section
unfolding validate_crc
long_section-IsWhole = (ap (λ n. n == 0) (crc32_mpeg2-append long_bytes), refl)

two_packets : length (packetize_section 0x11 long_section 15).0 ≡ 2
unfolding packetize_section
two_packets = refl

feed_each-packetize_section_example :
    (feed_each (new_section_assembler 0x11) (packetize_section 0x11 long_section 15).0).0
    ≡ long_section ∷ []
feed_each-packetize_section_example =
    feed_each-packetize_section (new_section_assembler 0x11) long_section 15 long_section-IsWhole
      refl (omega arith)

-- The table of a stream with one service.
abbrev table_packet : Packet
table_packet = filled (header_of 0 true 0) (pat_section 0x7fe0 0x400 0x1f0 3)

abbrev demuxer : Demuxer
demuxer = (feed_with_pid new_demuxer table_packet).1

demuxer-Reachable : Reachable demuxer
demuxer-Reachable = feeds new_demuxer table_packet begins

Reachable-IsIndexed_example : IsIndexed demuxer
Reachable-IsIndexed_example = Reachable-IsIndexed demuxer-Reachable

demuxer_lem :
    (demuxer.pat ≡ some (single_program 0x7fe0 0x400 0x1f0 3))
    × (lookup 0x400 demuxer.programs ≡ some (new_program 0x1f0))
    × ((new_output.generation == demuxer.pat_generation) ≡ false)
unfolding feed_with_pid validate_crc crc32_mpeg2 transport_error_indicator is_null
    valid_payload_offset has_payload payload payload_unit_start_indicator
demuxer_lem = (refl, refl, refl)

table_packet_usable : is_usable table_packet ≡ true
unfolding transport_error_indicator is_null valid_payload_offset
table_packet_usable = refl

table_packet-pid : pid table_packet ≡ 0
unfolding pid
table_packet-pid = refl

service_packet-pat_example :
    (q : Packet) × (s : Section) × ((service_packet demuxer 0x400 new_output table_packet).0
      ≡ some q)
    × (continuity_counter q ≡ 0)
    × ((feed_all (new_section_assembler 0) q).0 ≡ s ∷ [])
    × (parse_pat s ≡ some (single_program 0x7fe0 0x400 0x1f0 3))
service_packet-pat_example =
    service_packet-pat demuxer 0x400 new_output table_packet (single_program 0x7fe0 0x400 0x1f0 3)
      (new_program 0x1f0) (new_section_assembler 0) demuxer-Reachable demuxer_lem.0 demuxer_lem.1
      demuxer_lem.2 table_packet_usable table_packet-pid (omega arith) (omega arith) refl

abbrev inputs : List (Demuxer × Packet)
inputs = (demuxer, table_packet) ∷ (demuxer, table_packet) ∷ []

serve_each-CountsFrom_example : CountsFrom 0 (serve_each 0x400 new_output inputs)
serve_each-CountsFrom_example =
    serve_each-CountsFrom 0x400 new_output inputs (tt, λ h. absurd (omega (arith, h)))

serve_each_no_drops_example :
    drops_of 0 (drops new_monitor (serve_each 0x400 new_output inputs)) ≡ []
serve_each_no_drops_example = serve_each_no_drops 0x400 inputs

-- A packet of PID 256 with a payload.
abbrev counted_packet : ℕ → Packet
counted_packet counter = 0x47 ∷ 1 ∷ 0 ∷ (0x10 + counter) ∷ replicate 184 0

abbrev other_packet : Packet
other_packet = 0x47 ∷ 1 ∷ 1 ∷ 0x10 ∷ replicate 184 0

counted_is_watched : is_watched (counted_packet 4) ≡ true
unfolding transport_error_indicator is_null valid_payload_offset
counted_is_watched = refl

later_is_watched : is_watched (counted_packet 7) ≡ true
unfolding transport_error_indicator is_null valid_payload_offset
later_is_watched = refl

counted-has_payload : has_payload (counted_packet 4) ≡ true
unfolding has_payload
counted-has_payload = refl

later-has_payload : has_payload (counted_packet 7) ≡ true
unfolding has_payload
later-has_payload = refl

others_between : (pid other_packet == pid (counted_packet 4)) ≡ false
unfolding pid
others_between = refl

same_pid : pid (counted_packet 7) ≡ pid (counted_packet 4)
unfolding pid
same_pid = refl

later_is_unmarked : discontinuity_indicator (counted_packet 7) ≡ false
unfolding discontinuity_indicator
later_is_unmarked = refl

observe-next_example :
    (observe
      (after (observe new_monitor (counted_packet 4)).1 (other_packet ∷ []))
      (counted_packet 7)).0
    ≡ gap
        (counted_packet 4)
        (counted_packet 7)
        ((observe new_monitor (counted_packet 4)).1.duplicate_seen (pid (counted_packet 4)))
observe-next_example =
    observe-next new_monitor (counted_packet 4) (counted_packet 7) (other_packet ∷ [])
      counted_is_watched counted-has_payload (others_between, tt) same_pid later_is_watched
      later-has_payload later_is_unmarked

two_are_missing :
    drops new_monitor (counted_packet 4 ∷ other_packet ∷ counted_packet 7 ∷ [])
    ≡ record { pid = 256; expected_counter = 5; actual_counter = 7 } ∷ []
unfolding observe pid transport_error_indicator is_null valid_payload_offset discontinuity_indicator
    has_payload continuity_counter
two_are_missing = refl

drops_of-drops_example :
    drops_of 256 (drops new_monitor (counted_packet 4 ∷ other_packet ∷ counted_packet 7 ∷ []))
    ≡ drops new_monitor (packets_of 256 (counted_packet 4 ∷ other_packet ∷ counted_packet 7 ∷ []))
drops_of-drops_example =
    drops_of-drops 256 (counted_packet 4 ∷ other_packet ∷ counted_packet 7 ∷ [])
