-- ===== src/Demux.antt =====
-- internal/stream/demux/demuxer.go: the filter of one service, and the monitor of continuity counters.
use mahiron.Prelude.{
  ℕ, zero, suc, ◌+◌, ◌%◌, Bool, true, false, not, ◌&&◌, ◌||◌, Option, none, some, List, [], ◌∷◌,
  ◌==◌, if◌then◌else◌, length,
}
use mahiron.Prelude.Maps.{put}
use mahiron.Ts.{
  Packet, byte_at, pid, transport_error_indicator, is_null, valid_payload_offset,
  discontinuity_indicator, has_payload, continuity_counter,
}
use mahiron.Ts.Demux.{Demuxer, DemuxServiceOutput, service_packet, pat_ready, has_service}
pub mod Monitor
pub mod Gaps
pub mod Tables

-- A packet to send, nothing, or that the service is gone.
pub data Filtered : Type 0 where
  sends : Packet → Filtered
  skips : Filtered
  service_not_found : Filtered

-- `serviceFilter.Packet`
unfoldable pub filter_packet :
    Demuxer → ℕ → DemuxServiceOutput → Packet → Filtered × DemuxServiceOutput
unfolding pat_ready has_service service_packet
filter_packet d service_id output packet =
    let (sent, output') = service_packet d service_id output packet in
    if pat_ready d && not (has_service d service_id)
    then (service_not_found, output)
    else (elim sent [ none ↦ skips | some q ↦ sends q ], output')

-- A PID with no last packet has the empty one, which is of another length.
pub record ContinuityMonitor : Type 0 where
  pub seen : ℕ → Bool
  pub last : ℕ → ℕ
  pub duplicate_seen : ℕ → Bool
  pub last_packet : ℕ → Packet

abbrev pub new_monitor : ContinuityMonitor
new_monitor = record {
  seen = λ p. false;
  last = λ p. 0;
  duplicate_seen = λ p. false;
  last_packet = λ p. [];
}

pub record ContinuityDrop : Type 0 where
  pub pid : ℕ
  pub expected_counter : ℕ
  pub actual_counter : ℕ

abbrev pub bytes_equal : List ℕ → List ℕ → Bool
bytes_equal [] [] = true
bytes_equal [] (y ∷ ys) = false
bytes_equal (x ∷ xs) [] = false
bytes_equal (x ∷ xs) (y ∷ ys) = x == y && bytes_equal xs ys

abbrev pub same_as_last : ContinuityMonitor → ℕ → Packet → Bool
same_as_last m p packet = length (m.last_packet p) == 188 && bytes_equal (m.last_packet p) packet

abbrev pub remember : ContinuityMonitor → ℕ → Packet → ContinuityMonitor
remember m p packet = record m { last_packet = put m.last_packet p packet }

abbrev pub is_watched : Packet → Bool
is_watched packet =
    length packet == 188
    && byte_at packet 0 == 0x47
    && not (transport_error_indicator packet)
    && not (is_null packet)
    && valid_payload_offset packet

-- What a discontinuity that the packet announces makes of the monitor.
abbrev pub after_mark : ContinuityMonitor → Packet → ContinuityMonitor
after_mark m packet =
    if discontinuity_indicator packet
    then record m {
      seen = put m.seen (pid packet) false;
      duplicate_seen = put m.duplicate_seen (pid packet) false;
      last_packet = put m.last_packet (pid packet) [];
    }
    else m

-- `observe` from where the packet has a payload.
unfoldable pub count_packet : ContinuityMonitor → Packet → Option ContinuityDrop × ContinuityMonitor
count_packet m packet =
    let p = pid packet in
    let counter = continuity_counter packet in
    let last = m.last p in
    let expected = (last + 1) % 16 in
    let counted : ContinuityMonitor = record m {
      seen = put m.seen p true;
      last = put m.last p counter;
    } in
    let kept =
      remember (record counted { duplicate_seen = put m.duplicate_seen p false }) p packet in
    if m.seen p && counter == last && not (m.duplicate_seen p) && same_as_last m p packet
    then (none, record counted { duplicate_seen = put m.duplicate_seen p true })
    else if m.seen p && not (counter == expected)
    then (some (record { pid = p; expected_counter = expected; actual_counter = counter }), kept)
    else (none, kept)

unfoldable pub observe : ContinuityMonitor → Packet → Option ContinuityDrop × ContinuityMonitor
unfolding count_packet
observe m packet =
    if not (is_watched packet)
    then (none, m)
    else if not (has_payload packet)
    then (none, after_mark m packet)
    else count_packet (after_mark m packet) packet
