-- ===== src/Ts/Demux/Emitted.antt =====
-- ts/demux.go: the packets of the table that an output view keeps.
use mahiron.Prelude.{
  ℕ, zero, suc, ◌+◌, ◌-◌, ◌/◌, ◌%◌, ◌≤◌, ◌<◌, ◌≡◌, refl, Bool, true, false, ◌||◌, List, [], ◌∷◌,
  ltb, length, drop, get_or, inl, inr, Bool-cases, Option-cases, arith,
}
use mahiron.Prelude.Dict.{lookup}
use mahiron.Ts.{Packet, byte_at, pid, continuity_counter}
use mahiron.Ts.Sections.{Section}
use mahiron.Ts.Psi.{build_pat_section}
use mahiron.Ts.Packetize.{header_of, filled, packetize_loop, packetize_section}
use mahiron.Ts.Packetize.Bodies.{length-body}
use mahiron.Ts.Demux.{Demuxer, DemuxServiceOutput, rebuild_pat_output, with_counter}

-- An intact packet of the table: PID 0, no error, no adaptation field, and a payload.
abbrev pub IsTablePacket : Packet → Type 0
IsTablePacket q =
    (pid q ≡ 0)
    × (length q ≡ 188)
    × (byte_at q 0 ≡ 0x47)
    × (byte_at q 1 < 0x80)
    × (byte_at q 3 / 16 ≡ 1)

abbrev pub AllPats : List Packet → Type 0
AllPats [] = Unit {0}
AllPats (q ∷ qs) = IsTablePacket q × AllPats qs

-- The next packet of the table is among its packets.
abbrev pub IsReady : DemuxServiceOutput → Type 0
IsReady output =
    AllPats output.pat_packets
    × (1 ≤ length output.pat_packets → output.pat_index < length output.pat_packets)

filled-IsTablePacket :
    (first : Bool) (bytes : List ℕ) (counter : ℕ)
    → IsTablePacket (filled (header_of 0 first counter) bytes)
unfolding pid
filled-IsTablePacket true bytes counter =
    (refl, omega (arith, length-body true bytes), refl, omega arith, omega arith)
filled-IsTablePacket false bytes counter =
    (refl, omega (arith, length-body false bytes), refl, omega arith, omega arith)

packetize_loop-AllPats :
    (fuel : ℕ) (first : Bool) (bytes : List ℕ) (counter : ℕ)
    → AllPats (packetize_loop fuel 0 first bytes counter).0
unfolding packetize_loop
packetize_loop-AllPats zero first bytes counter = tt
packetize_loop-AllPats (suc fuel) first bytes counter =
    elim (Bool-cases (first || ltb 0 (length bytes))) [
      | inr over ↦ rw (over, packetize_loop) tt
      | inl more ↦
          rw (more, packetize_loop)
            (
              filled-IsTablePacket first bytes counter,
              packetize_loop-AllPats fuel false
                  (drop (188 - length (header_of 0 first counter)) bytes) ((counter + 1) % 16),
            )
    ]

packetize_section-AllPats : (s : Section) (counter : ℕ) → AllPats (packetize_section 0 s counter).0
unfolding packetize_section
packetize_section-AllPats s counter = packetize_loop-AllPats (length s + 1) true s counter

pub rebuild_pat_output-IsReady :
    (d : Demuxer) (service_id : ℕ) (output : DemuxServiceOutput)
    → IsReady output
    → IsReady (rebuild_pat_output d service_id output)
unfolding rebuild_pat_output
rebuild_pat_output-IsReady d service_id output r = elim (Option-cases d.pat) [
  | inl unknown ↦ rw (unknown, rebuild_pat_output) r
  | inr (pat, known) ↦ elim (Option-cases (lookup service_id pat.programs)) [
    | inl absent ↦ rw (known, absent, rebuild_pat_output) r
    | inr (pmt_pid, found) ↦
        elim (Option-cases
          (build_pat_section pat.transport_stream_id service_id pmt_pid pat.version_number)) [
            | inl invalid ↦ rw (known, found, invalid, rebuild_pat_output) r
            | inr (section, built) ↦
                rw (known, found, built, rebuild_pat_output)
                  (packetize_section-AllPats section 0, λ some_packet. omega (arith, some_packet))
          ]
  ]
]

pub get_or-AllPats :
    (qs : List Packet) (i : ℕ) → AllPats qs → i < length qs → IsTablePacket (get_or qs i [])
get_or-AllPats [] i a h = elim h [ ]
get_or-AllPats (q ∷ qs) zero (a, as') h = a
get_or-AllPats (q ∷ qs) (suc i) (a, as') h = get_or-AllPats qs i as' (omega arith)

pub with_counter_lem :
    (q : Packet) (counter : ℕ)
    → IsTablePacket q
    → IsTablePacket (with_counter q counter)
      × (continuity_counter (with_counter q counter) ≡ counter % 16)
unfolding pid continuity_counter
with_counter_lem [] counter (p, size, h, i, j) = absurd (omega (arith, size))
with_counter_lem (a ∷ []) counter (p, size, h, i, j) = absurd (omega (arith, size))
with_counter_lem (a ∷ b ∷ []) counter (p, size, h, i, j) = absurd (omega (arith, size))
with_counter_lem (a ∷ b ∷ c ∷ []) counter (p, size, h, i, j) = absurd (omega (arith, size))
with_counter_lem (a ∷ b ∷ c ∷ e ∷ q) counter (p, size, sync, clean, plain) =
    ((p, size, sync, clean, omega (arith, plain)), omega arith)

pub rebuild_pat_output-pat_counter :
    (d : Demuxer) (service_id : ℕ) (output : DemuxServiceOutput)
    → (rebuild_pat_output d service_id output).pat_counter ≡ output.pat_counter
unfolding rebuild_pat_output
rebuild_pat_output-pat_counter d service_id output = ground arith
