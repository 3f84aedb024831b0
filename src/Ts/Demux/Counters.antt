-- ===== src/Ts/Demux/Counters.antt =====
-- ts/demux.go: the counters of the tables that an output view emits.
use native.Mathlib.Nat.{mod-lt}
use mahiron.Prelude.{
  ℕ, ◌+◌, ◌%◌, ◌≤◌, ◌≡◌, refl, sym, ap, ◌∙◌, subst, Bool, true, false, not, ◌||◌, Option, none,
  some, List, [], ◌∷◌, ◌==◌, length, get_or, inl, inr, ◌⊎◌, Bool-cases, Option-cases, if◌then◌else◌,
  arith,
}
use mahiron.Prelude.Dict.{lookup}
use mahiron.Ts.{Packet, pid, continuity_counter}
use mahiron.Ts.Demux.{
  DemuxProgram, Demuxer, DemuxServiceOutput, current_output, service_packet, with_counter,
  is_usable, common_service_pid,
}
use mahiron.Ts.Demux.Views.{service_packet-zero}
use mahiron.Ts.Demux.Emitted.{
  IsTablePacket, IsReady, get_or-AllPats, with_counter_lem, rebuild_pat_output-IsReady,
  rebuild_pat_output-pat_counter,
}

-- `ServiceDemux.Packet` for each of the packets, each in a state of the demultiplexer; what it emits.
abbrev pub serve_each : ℕ → DemuxServiceOutput → List (Demuxer × Packet) → List Packet
serve_each service_id output [] = []
serve_each service_id output ((d, packet) ∷ more) =
    let (sent, output') = service_packet d service_id output packet in
    let later = serve_each service_id output' more in
    elim sent [ none ↦ later | some q ↦ q ∷ later ]

-- The packets with PID 0 are intact, and count on from `counter`.
abbrev pub CountsFrom : ℕ → List Packet → Type 0
CountsFrom counter [] = Unit {0}
CountsFrom counter (q ∷ qs) =
    (pid q ≡ 0 → (continuity_counter q ≡ counter % 16) × IsTablePacket q)
    × CountsFrom (if pid q == 0 then (counter + 1) % 16 else counter) qs

-- Of an output and what a packet makes of it: the next counter is used up by a packet with PID 0
-- only.
abbrev Continues : DemuxServiceOutput → Option Packet × DemuxServiceOutput → Type 0
Continues output (none, output') =
    IsReady output' × (output'.pat_counter % 16 ≡ output.pat_counter % 16)
Continues output (some q, output') =
    IsReady output'
    × (pid q ≡ 0 → (continuity_counter q ≡ output.pat_counter % 16) × IsTablePacket q)
    × (output'.pat_counter % 16
        ≡ (if pid q == 0 then (output.pat_counter + 1) % 16 else output.pat_counter) % 16)

current_output_lem :
    (d : Demuxer) (service_id : ℕ) (output : DemuxServiceOutput)
    → IsReady output
    → IsReady (current_output d service_id output)
      × ((current_output d service_id output).pat_counter ≡ output.pat_counter)
current_output_lem d service_id output r =
    elim (Bool-cases (output.generation == d.pat_generation)) [
      | inl same ↦ rw same (r, refl)
      | inr stale ↦ rw stale (
        rebuild_pat_output-IsReady d service_id output r,
        rebuild_pat_output-pat_counter d service_id output,
      )
    ]

is_not : (b : Bool) → not b ≡ false → b ≡ true
is_not true h = refl
is_not false h = cc

-- What happens to a packet of a program, in four cases.
module _ (d : Demuxer) (service_id : ℕ) (output : DemuxServiceOutput) (packet : Packet)
    (program : DemuxProgram) (usable : is_usable packet ≡ true)
    (has : lookup service_id d.programs ≡ some program) (ready : IsReady output) where
  abbrev now : DemuxServiceOutput
  now = current_output d service_id output

  table-Continues :
      (pid packet == 0) ≡ true
      → (length now.pat_packets == 0) ≡ false
      → Continues output (service_packet d service_id output packet)
  table-Continues zero_in some_packet =
      let ((pats, inside), same) = current_output_lem d service_id output ready in
      let many : 1 ≤ length now.pat_packets = ground (arith, some_packet) in
      let it = get_or-AllPats now.pat_packets now.pat_index pats (inside many) in
      let q = with_counter (get_or now.pat_packets now.pat_index []) now.pat_counter in
      let (kept, counted) =
        with_counter_lem (get_or now.pat_packets now.pat_index []) now.pat_counter it in
      let is_pat : (pid q == 0) ≡ true = ap (λ n. n == 0) kept.0 in
      subst (Continues output)
        (sym (
          service_packet-zero d service_id output packet program now usable has zero_in refl
            some_packet))
        (
          (pats, λ h. mod-lt (now.pat_index + 1) many),
          (λ h. (counted ∙ ap (λ c. c % 16) same, kept)),
          rw is_pat (ap (λ c. (c + 1) % 16 % 16) same),
        )

  empty-Continues :
      (pid packet == 0) ≡ true
      → (length now.pat_packets == 0) ≡ true
      → Continues output (service_packet d service_id output packet)
  unfolding service_packet
  empty-Continues zero_in empty =
      let (ready', same) = current_output_lem d service_id output ready in
      let sent : service_packet d service_id output packet ≡ (none, now) =
        rw (usable, has, zero_in, empty, service_packet) refl in
      subst (Continues output) (sym sent) (ready', ap (λ c. c % 16) same)

  other-Continues :
      (b : Bool)
      → (pid packet == 0) ≡ false
      → (common_service_pid (pid packet)
          || pid packet == program.pmt_pid
          || program.pids (pid packet)
          || d.cat_emm (pid packet))
        ≡ b
      → Continues output (service_packet d service_id output packet)
  unfolding service_packet
  other-Continues true other passes =
      let (ready', same) = current_output_lem d service_id output ready in
      let sent : service_packet d service_id output packet ≡ (some packet, now) =
        rw (usable, has, other, passes, service_packet) refl in
      subst (Continues output) (sym sent)
        (ready', (λ h. absurd (ground (arith, other, h))), rw other (ap (λ c. c % 16) same))
  other-Continues false other stays =
      let (ready', same) = current_output_lem d service_id output ready in
      let sent : service_packet d service_id output packet ≡ (none, now) =
        rw (usable, has, other, stays, service_packet) refl in
      subst (Continues output) (sym sent) (ready', ap (λ c. c % 16) same)

useless-Continues :
    (d : Demuxer) (service_id : ℕ) (output : DemuxServiceOutput) (packet : Packet)
    → IsReady output
    → (not (is_usable packet) ≡ true) ⊎ (lookup service_id d.programs ≡ none)
    → Continues output (service_packet d service_id output packet)
unfolding service_packet
useless-Continues d service_id output packet ready why =
    let sent : service_packet d service_id output packet ≡ (none, output) = elim why [
      | inl useless ↦ rw (useless, service_packet) refl
      | inr absent ↦ elim (Bool-cases (not (is_usable packet))) [
        | inl useless ↦ rw (useless, service_packet) refl
        | inr usable ↦ rw (usable, absent, service_packet) refl
      ]
    ] in
    subst (Continues output) (sym sent) (ready, refl)

service_packet-Continues :
    (d : Demuxer) (service_id : ℕ) (output : DemuxServiceOutput) (packet : Packet)
    → IsReady output
    → Continues output (service_packet d service_id output packet)
service_packet-Continues d service_id output packet ready =
    let now = current_output d service_id output in
    elim (Bool-cases (not (is_usable packet))) [
      | inl useless ↦ useless-Continues d service_id output packet ready (inl useless)
      | inr usable ↦ elim (Option-cases (lookup service_id d.programs)) [
        | inl absent ↦ useless-Continues d service_id output packet ready (inr absent)
        | inr (program, has) ↦
            let fine = is_not (is_usable packet) usable in
            elim (Bool-cases (pid packet == 0)) [
              | inr other ↦
                  other-Continues d service_id output packet program fine has ready _ other refl
              | inl zero_in ↦ elim (Bool-cases (length now.pat_packets == 0)) [
                | inl empty ↦
                    empty-Continues d service_id output packet program fine has ready zero_in empty
                | inr full ↦
                    table-Continues d service_id output packet program fine has ready zero_in full
              ]
            ]
      ]
    ]

-- The same packets count on from counters that are equal modulo 16.
CountsFrom-mod : (a b : ℕ) (qs : List Packet) → a % 16 ≡ b % 16 → CountsFrom a qs → CountsFrom b qs
CountsFrom-mod a b [] e c = tt
CountsFrom-mod a b (q ∷ qs) e (first, c) = (
  (λ h. ((first h).0 ∙ e, (first h).1)),
  CountsFrom-mod (if pid q == 0 then (a + 1) % 16 else a) (if pid q == 0 then (b + 1) % 16 else b)
      qs (ground (arith, e)) c,
)

sent-CountsFrom :
    (service_id : ℕ) (output : DemuxServiceOutput) (sent : Option Packet)
    (output' : DemuxServiceOutput)
    → (more : List (Demuxer × Packet))
    → (IsReady output' → CountsFrom output'.pat_counter (serve_each service_id output' more))
    → Continues output (sent, output')
    → CountsFrom output.pat_counter (
        let later = serve_each service_id output' more in
        elim sent [ none ↦ later | some q ↦ q ∷ later ])
sent-CountsFrom service_id output none output' more later (ready, same) =
    CountsFrom-mod output'.pat_counter output.pat_counter (serve_each service_id output' more) same
      (later ready)
sent-CountsFrom service_id output (some q) output' more later (ready, counted, same) = (
  counted,
  CountsFrom-mod output'.pat_counter
      (if pid q == 0 then (output.pat_counter + 1) % 16 else output.pat_counter)
      (serve_each service_id output' more) same (later ready),
)

-- The packets with PID 0 that a view emits count on from its counter, whatever packets it is given
-- and whatever the demultiplexer learns between them, also when the table changes.
pub serve_each-CountsFrom :
    (service_id : ℕ) (output : DemuxServiceOutput) (inputs : List (Demuxer × Packet))
    → IsReady output
    → CountsFrom output.pat_counter (serve_each service_id output inputs)
serve_each-CountsFrom service_id output [] ready = tt
serve_each-CountsFrom service_id output ((d, packet) ∷ more) ready =
    let result = service_packet d service_id output packet in
    sent-CountsFrom service_id output result.0 result.1 more
      (λ r. serve_each-CountsFrom service_id result.1 more r)
      (service_packet-Continues d service_id output packet ready)
