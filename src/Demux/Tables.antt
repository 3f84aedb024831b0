-- ===== src/Demux/Tables.antt =====
-- ts/demux.go and internal/stream/demux/demuxer.go: the tables that a view makes never look like a loss.
use mahiron.Prelude.{
  ℕ, ◌+◌, ◌%◌, ◌≡◌, refl, sym, ap, ◌∙◌, subst, true, false, Option, none, List, [], ◌∷◌, ◌==◌, inl,
  inr, Bool-cases, then_branch, else_branch, ==→eq, arith,
}
use mahiron.Ts.{
  Packet, pid, continuity_counter, has_payload, discontinuity_indicator, has_adaptation_field,
  transport_error_indicator, is_null, valid_payload_offset,
}
use mahiron.Ts.Demux.{Demuxer, new_output}
use mahiron.Ts.Demux.Emitted.{IsTablePacket}
use mahiron.Ts.Demux.Counters.{serve_each, CountsFrom, serve_each-CountsFrom}
use mahiron.Demux.{
  ContinuityMonitor, ContinuityDrop, new_monitor, is_watched, after_mark, count_packet, observe,
}
use mahiron.Demux.Monitor.{before, drops, drops_of, observe-other, observe-pid, drops_of-other}
use mahiron.Demux.Gaps.{observe-counts}

table_packet_plain : (q : Packet) → IsTablePacket q → has_adaptation_field q ≡ false
unfolding has_adaptation_field
table_packet_plain q (own, size, sync, clean, plain) = ground (arith, plain)

table_packet_full : (q : Packet) → IsTablePacket q → has_payload q ≡ true
unfolding has_payload
table_packet_full q (own, size, sync, clean, plain) = ground (arith, plain)

table_packet_unmarked : (q : Packet) → IsTablePacket q → discontinuity_indicator q ≡ false
unfolding discontinuity_indicator
table_packet_unmarked q t = rw (table_packet_plain q t) (ground arith)

table_packet_watched : (q : Packet) → IsTablePacket q → is_watched q ≡ true
unfolding transport_error_indicator is_null valid_payload_offset
table_packet_watched q (own, size, sync, clean, plain) =
    let simple = table_packet_plain q (own, size, sync, clean, plain) in
    rw (own, size, sync, simple) (ground (arith, clean))

-- Of a monitor that expects `counter` next on PID 0, if it expects anything.
abbrev Expects : ℕ → ContinuityMonitor → Type 0
Expects counter m = m.seen 0 ≡ true → (m.last 0 + 1) % 16 ≡ counter % 16

count_packet-last :
    (m : ContinuityMonitor) (q : Packet) → (count_packet m q).1.last (pid q) ≡ continuity_counter q
unfolding count_packet
count_packet-last m q = ground arith

twice : (counter : ℕ) → (counter % 16 + 1) % 16 ≡ (counter + 1) % 16 % 16
twice counter = omega arith

count_packet-table :
    (m : ContinuityMonitor) (q : Packet) (counter : ℕ)
    → Expects counter m
    → pid q ≡ 0
    → continuity_counter q ≡ counter % 16
    → ((count_packet m q).0 ≡ none) × Expects ((counter + 1) % 16) (count_packet m q).1
unfolding count_packet
count_packet-table m q counter expects own counts =
    let last : (count_packet m q).1.last 0 ≡ continuity_counter q =
      ap (λ p. (count_packet m q).1.last p) (sym own) ∙ count_packet-last m q in
    let next = λ (h : (count_packet m q).1.seen 0 ≡ true).
      ap (λ l. (l + 1) % 16) (last ∙ counts) ∙ twice counter in
    elim (Bool-cases (m.seen 0)) [
      | inl seen ↦ (rw own (ground (arith, seen, expects seen, counts)), next)
      | inr new ↦ (rw own (ground (arith, new)), next)
    ]

observe-table :
    (m : ContinuityMonitor) (q : Packet) (counter : ℕ)
    → Expects counter m
    → IsTablePacket q
    → continuity_counter q ≡ counter % 16
    → ((observe m q).0 ≡ none) × Expects ((counter + 1) % 16) (observe m q).1
observe-table m q counter expects t counts =
    let seen = observe-counts m q (table_packet_watched q t) (table_packet_full q t) in
    let unmarked : after_mark m q ≡ m = else_branch _ (table_packet_unmarked q t) in
    subst
      (λ (r : Option ContinuityDrop × ContinuityMonitor).
        (r.0 ≡ none) × Expects ((counter + 1) % 16) r.1)
      (sym (seen ∙ ap (λ (k : ContinuityMonitor). count_packet k q) unmarked))
      (count_packet-table m q counter expects t.0 counts)

drops_of-counted :
    (m : ContinuityMonitor) (counter : ℕ) (qs : List Packet)
    → Expects counter m
    → CountsFrom counter qs
    → drops_of 0 (drops m qs) ≡ []
drops_of-counted m counter [] expects counts = refl
drops_of-counted m counter (q ∷ qs) expects (first, counts) = elim (Bool-cases (pid q == 0)) [
  | inl own ↦
      let it = first (==→eq (pid q) 0 own) in
      let (silent, expects') = observe-table m q counter expects it.1 it.0 in
      let counts' = subst (λ c. CountsFrom c qs) (then_branch counter own) counts in
      ap (λ (d : Option ContinuityDrop). drops_of 0 (before d (drops (observe m q).1 qs))) silent
      ∙ drops_of-counted (observe m q).1 ((counter + 1) % 16) qs expects' counts'
  | inr other ↦
      let (seen, last, _, _) = observe-other m q 0 other in
      let counts' = subst (λ c. CountsFrom c qs) (else_branch ((counter + 1) % 16) other) counts in
      drops_of-other 0 (observe m q).0 (drops (observe m q).1 qs)
        (λ x h. ap (λ k. k == 0) (observe-pid m q x h) ∙ other)
      ∙ drops_of-counted (observe m q).1 counter qs
          (λ h. ap (λ l. (l + 1) % 16) last ∙ expects (sym seen ∙ h)) counts'
]

-- Whatever packets a view is given and whatever the demultiplexer learns between them: a monitor that
-- watches what the view emits reports no drop on PID 0, where the view's own tables are.
pub serve_each_no_drops :
    (service_id : ℕ) (inputs : List (Demuxer × Packet))
    → drops_of 0 (drops new_monitor (serve_each service_id new_output inputs)) ≡ []
serve_each_no_drops service_id inputs =
    drops_of-counted new_monitor 0 (serve_each service_id new_output inputs) (λ h. cc)
      (serve_each-CountsFrom service_id new_output inputs (tt, λ h. absurd (omega (arith, h))))
