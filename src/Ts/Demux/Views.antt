-- ===== src/Ts/Demux/Views.antt =====
-- ts/demux.go: the tables that an output view emits.
use mahiron.Prelude.{
  else_branch, ℕ, suc, ◌+◌, ◌%◌, ◌≤◌, ◌≡◌, refl, sym, ap, ◌∙◌, subst, true, false, Option, some,
  List, [], ◌∷◌, append-nil, ◌==◌, length, drop_all, get_or, arith,
}
use mahiron.Prelude.Dict.{lookup}
use mahiron.Ts.{Packet, pid, continuity_counter}
use mahiron.Ts.Sections.{Section, SectionAssembler, feed_all}
use mahiron.Ts.Psi.{Pat, parse_pat}
use mahiron.Ts.Psi.Built.{
  build_pat_section-some, pat_section, single_program, pat_section-IsWhole, parse_pat-pat_section,
}
use mahiron.Ts.Packetize.{header_of, filled, packetize_loop, packetize_section}
use mahiron.Ts.Packetize.Steps.{feed_each, packetize-done}
use mahiron.Ts.Packetize.Reassembled.{feed_each-packetize_section}
use mahiron.Ts.Demux.{
  current_output, DemuxProgram, Demuxer, DemuxServiceOutput, rebuild_pat_output, service_packet,
  with_counter, is_usable,
}
use mahiron.Ts.Demux.Indexed.{pmt_of}
use mahiron.Ts.Demux.Reach.{Reachable, Reachable-IsIndexed}

packetize_section-one :
    (p : ℕ) (s : Section) (counter : ℕ)
    → length s ≤ 183
    → (packetize_section p s counter).0 ≡ filled (header_of p true counter) s ∷ []
unfolding packetize_section packetize_loop
packetize_section-one p s counter fits =
    let rounds : length s + 1 ≡ suc (length s) = omega arith in
    ap (λ (n : ℕ). (packetize_loop n p true s counter).0) rounds
    ∙ ap
        (λ (rest : List ℕ).
          filled (header_of p true counter) s
          ∷ (packetize_loop (length s) p false rest ((counter + 1) % 16)).0)
        (drop_all 183 s fits)
    ∙ ap (λ (r : List Packet × ℕ). filled (header_of p true counter) s ∷ r.0)
        (packetize-done (length s) p ((counter + 1) % 16))

-- The output that is made anew for a service of the table.
rebuild_pat_output_lem :
    (d : Demuxer) (service_id : ℕ) (output : DemuxServiceOutput) (pat : Pat) (pmt_pid : ℕ)
    → d.pat ≡ some pat
    → lookup service_id pat.programs ≡ some pmt_pid
    → pmt_pid ≤ 0x1fff
    → rebuild_pat_output d service_id output ≡ record output {
      generation = d.pat_generation;
      pat_index = 0;
      pat_packets =
          filled
            (header_of 0 true 0)
            (pat_section pat.transport_stream_id service_id pmt_pid pat.version_number)
          ∷ [];
    }
unfolding rebuild_pat_output
rebuild_pat_output_lem d service_id output pat pmt_pid known found small =
    let section = pat_section pat.transport_stream_id service_id pmt_pid pat.version_number in
    let built =
      build_pat_section-some pat.transport_stream_id service_id pmt_pid pat.version_number small in
    rw (known, found, built, rebuild_pat_output)
      (ap
        (λ (packets : List Packet).
          let made : DemuxServiceOutput = record output {
            generation = d.pat_generation;
            pat_index = 0;
            pat_packets = packets;
          } in
          made)
        (packetize_section-one 0 section 0 (omega arith)))

-- A usable packet with PID 0 gives the next packet of the table, with the counter of the view.
pub service_packet-zero :
    (d : Demuxer) (service_id : ℕ) (output : DemuxServiceOutput) (packet : Packet)
    → (program : DemuxProgram) (current : DemuxServiceOutput) → is_usable packet ≡ true
    → lookup service_id d.programs ≡ some program
    → (pid packet == 0) ≡ true
    → current_output d service_id output ≡ current
    → (length current.pat_packets == 0) ≡ false
    → service_packet d service_id output packet ≡ (
      some (with_counter (get_or current.pat_packets current.pat_index []) current.pat_counter),
      record current {
        pat_index = (current.pat_index + 1) % length current.pat_packets;
        pat_counter = (current.pat_counter + 1) % 16;
      },
    )
unfolding service_packet
service_packet-zero d service_id output packet program current usable has zero_pid is some_packet =
    rw (usable, has, zero_pid, is, some_packet, service_packet) refl

-- A view whose table is of another generation, of a service other than 0 with a program whose PMT PID
-- has 13 bits, in any reachable state of the demultiplexer that knows the table of the stream: a packet
-- with PID 0, of 188 bytes, without the mark of a transport error and with its payload's offset inside,
-- gives one with the view's own counter. Every assembler of PID 0 reads from it just one section, and
-- the table in it lists this service alone, with its PMT PID, and has the version and the transport
-- stream of that table.
pub service_packet-pat :
    (d : Demuxer) (service_id : ℕ) (output : DemuxServiceOutput) (packet : Packet) (pat : Pat)
    → (program : DemuxProgram) (sa : SectionAssembler) → Reachable d
    → d.pat ≡ some pat
    → lookup service_id d.programs ≡ some program
    → (output.generation == d.pat_generation) ≡ false
    → is_usable packet ≡ true
    → pid packet ≡ 0
    → 1 ≤ service_id
    → program.pmt_pid ≤ 0x1fff
    → sa.pid ≡ 0
    → (q : Packet) × (s : Section) × ((service_packet d service_id output packet).0 ≡ some q)
      × (continuity_counter q ≡ output.pat_counter % 16)
      × ((feed_all sa q).0 ≡ s ∷ [])
      × (parse_pat s
          ≡ some (
              single_program pat.transport_stream_id service_id program.pmt_pid pat.version_number))
unfolding continuity_counter
service_packet-pat d service_id output packet pat program sa reached known has stale usable zero_pid
      positive small own =
    let pmt_pid = program.pmt_pid in
    let section = pat_section pat.transport_stream_id service_id pmt_pid pat.version_number in
    let whole = pat_section-IsWhole pat.transport_stream_id service_id pmt_pid pat.version_number in
    let found : lookup service_id pat.programs ≡ some pmt_pid =
      sym ((Reachable-IsIndexed reached).listed pat service_id known) ∙ ap pmt_of has in
    let made : DemuxServiceOutput = record output {
      generation = d.pat_generation;
      pat_index = 0;
      pat_packets = filled (header_of 0 true 0) section ∷ [];
    } in
    let is : current_output d service_id output ≡ made =
      else_branch output stale
      ∙ rebuild_pat_output_lem d service_id output pat pmt_pid known found small in
    let sent =
      service_packet-zero d service_id output packet program made usable has
        (ap (λ n. n == 0) zero_pid) is refl in
    let q = filled (header_of 0 true output.pat_counter) section in
    let one = packetize_section-one 0 section output.pat_counter (omega arith) in
    let read =
      feed_each-packetize_section sa section output.pat_counter whole refl (omega (arith, own)) in
    let own_read =
      subst
        (λ p. (feed_each sa (packetize_section p section output.pat_counter).0).0 ≡ section ∷ [])
        own read in
    (
      q,
      section,
      ap (λ (r : Option Packet × DemuxServiceOutput). r.0) sent,
      omega arith,
      sym (append-nil (feed_all sa q).0)
          ∙ sym (ap (λ (ps : List Packet). (feed_each sa ps).0) one)
          ∙ own_read,
      parse_pat-pat_section pat.transport_stream_id service_id pmt_pid pat.version_number positive
          small,
    )
