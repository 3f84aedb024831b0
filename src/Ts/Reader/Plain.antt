-- ===== src/Ts/Reader/Plain.antt =====
-- ts/packet.go: the packet of 188 bytes that the buffer starts with is found.
use mahiron.Prelude.{
  ℕ, zero, suc, ◌+◌, ◌-◌, ◌≤◌, ◌<◌, ◌≡◌, refl, ap, ◌∙◌, ◌⊎◌, inl, inr, String, Bool, true, false,
  not, ◌&&◌, ◌||◌, Option, none, some, List, [], ◌∷◌, ◌++◌, leb, ltb, ◌==◌, length, take, drop,
  take-append, drop-append, drop-append_left, Bool-cases, then_branch, else_branch, arith,
}
use mahiron.Packets.{has_error}
use mahiron.Ts.{byte_at}
use mahiron.Ts.Reader.{
  Reading, PacketReader, Outcome, packet, fill_loop, fill, is_confirmed, fill_packet, first_ready,
  detect_loop, consume_packet, ready_at_stride, packet_ready_at, lose_sync, next_loop,
}
use mahiron.Ts.Reader.Kept.{pending}
use mahiron.Ts.Reader.Synced.{IsAligned, next_syncs-some, take_left}

-- A reader that fails just at the end of its bytes, with io.EOF.
pub record IsFinite {ℓ} {S : Type ℓ} (read_into : Reading S) (left : S → List ℕ) : Type ℓ where
  pub error_at_end :
      (s : S) (n : ℕ) (e : String)
      → (read_into s n).error ≡ some e
      → (e ≡ "EOF") × (left (read_into s n).next ≡ [])

module _ {ℓ} {S : Type ℓ} (read_into : Reading S) (left : S → List ℕ) where
  -- The stride of plain packets or none, and no error before the end.
  pub record OnPackets (pr : PacketReader S) : Type ℓ where
    pub plain : (pr.stride ≡ 0) ⊎ (pr.stride ≡ 188)
    pub at_end : (e : String) → pr.read_err ≡ some e → (e ≡ "EOF") × (left pr.r ≡ [])

  fill_loop-OnPackets :
      (fuel least : ℕ) (pr : PacketReader S)
      → IsFinite read_into left
      → OnPackets pr
      → OnPackets (fill_loop read_into fuel least pr)
  unfolding fill_loop
  fill_loop-OnPackets zero least pr finite on = on
  fill_loop-OnPackets (suc fuel) least pr finite on =
      let got = read_into pr.r 4096 in
      let pr' : PacketReader S = record pr {
        r = got.next;
        buf = pr.buf ++ got.bytes;
        read_err = got.error;
      } in
      let on' : OnPackets pr' = record {
        plain = on.plain;
        at_end = λ e failed. finite.error_at_end pr.r 4096 e failed;
      } in
      elim (Bool-cases (has_error pr.read_err || leb least (length pr.buf))) [
        | inl over ↦ rw (over, fill_loop) on
        | inr going ↦ elim (Bool-cases (has_error got.error || length got.bytes == 0)) [
          | inl stop ↦ rw (going, stop, fill_loop) on'
          | inr more ↦ rw (going, more, fill_loop) (fill_loop-OnPackets fuel least pr' finite on')
        ]
      ]

  pub fill-OnPackets :
      (least : ℕ) (pr : PacketReader S)
      → IsFinite read_into left
      → OnPackets pr
      → OnPackets (fill read_into least pr)
  unfolding fill
  fill-OnPackets least pr finite on = fill_loop-OnPackets least least pr finite on

  -- At the start of the buffer there is a packet of 188 bytes.
  unfoldable pub IsPlain : PacketReader S → Type 0
  IsPlain pr =
      IsAligned pr.buf
      × (188 ≤ length pr.buf)
      × ((188 < length pr.buf) ⊎ (has_error pr.read_err ≡ true))

  confirmed_lem : (pr : PacketReader S) → IsPlain pr → is_confirmed pr 0 188 ≡ true
  unfolding IsPlain is_confirmed
  confirmed_lem pr (aligned, long, more) =
      let (n, syncs, some_syncs) = next_syncs-some 3 pr.buf 1 aligned in
      rw (syncs, is_confirmed)
        (elim more [
          | inl next ↦ ground (arith, some_syncs (omega arith) next)
          | inr ended ↦ rw ended (ground arith)
        ])

  ready_lem : (pr : PacketReader S) → IsPlain pr → packet_ready_at read_into pr 0 188 ≡ (pr, true)
  unfolding IsPlain packet_ready_at fill_packet
  ready_lem pr (aligned, long, more) =
      let some_bytes : leb (length pr.buf) 0 ≡ false = ground (arith, long) in
      let synced : (byte_at pr.buf 0 == 0x47) ≡ true =
        ground (arith, aligned 0 (omega (arith, long))) in
      let whole : ltb (length pr.buf - 0) 188 ≡ false = ground (arith, long) in
      let confirmed = confirmed_lem pr (aligned, long, more) in
      rw (some_bytes, synced, whole, confirmed, packet_ready_at, fill_packet)
        (ap (λ b. (pr, not b && true)) whole)

  first_ready_lem :
      (pr : PacketReader S) (strides : List ℕ)
      → IsPlain pr
      → first_ready read_into pr 0 (188 ∷ strides) ≡ (pr, some 188)
  unfolding first_ready
  first_ready_lem pr strides plain =
      ap
        (λ (x : PacketReader S × Bool). elim x.1 [
          | true ↦ (x.0, some 188)
          | false ↦ first_ready read_into x.0 0 strides
        ])
        (ready_lem pr plain)

  detect_lem :
      (bound : ℕ) (pr : PacketReader S)
      → IsPlain pr
      → detect_loop read_into (suc bound) pr 0 ≡ some (pr, some (0, 188))
  unfolding IsPlain detect_loop
  detect_lem bound pr (aligned, long, more) =
      let inside : ltb 0 (length pr.buf) ≡ true = ground (arith, long) in
      let first = first_ready_lem pr (192 ∷ 204 ∷ []) (aligned, long, more) in
      let step : PacketReader S × Option ℕ → Option (PacketReader S × Option (ℕ × ℕ)) = λ x.
        elim x.1 [
          | some stride ↦ some (x.0, some (0, stride))
          | none ↦ detect_loop read_into bound x.0 (0 + 1)
        ] in
      ap
        (λ b. elim b [
          | false ↦ some (pr, none)
          | true ↦ step (first_ready read_into pr 0 (188 ∷ 192 ∷ 204 ∷ []))
        ])
        inside
      ∙ ap step first

  pub consume_lem :
      (pr : PacketReader S) (p rest : List ℕ)
      → 188 ≤ length pr.buf
      → length p ≡ 188
      → pending left pr ≡ p ++ rest
      → (take 188 pr.buf ≡ p) × (drop 188 pr.buf ++ left pr.r ≡ rest)
  consume_lem pr p rest long sized e = (
    take_left 188 pr.buf (left pr.r) long ∙ ap (take 188) e ∙ take-append 188 p rest sized,
    drop-append_left 188 pr.buf (left pr.r) long ∙ ap (drop 188) e ∙ drop-append 188 p rest sized,
  )

  unfoldable pub after_packet : PacketReader S → PacketReader S
  after_packet pr = record pr { stride = 188; buf = drop 188 pr.buf }

  consume_plain :
      (pr : PacketReader S)
      → pr.stride ≡ 188
      → consume_packet pr 0 188 ≡ (after_packet pr, packet (take 188 pr.buf))
  unfolding after_packet consume_packet
  consume_plain pr e =
      ap (λ n. (record pr { stride = n; buf = drop 188 pr.buf }, packet (take 188 pr.buf))) e

  consume_found :
      (pr : PacketReader S)
      → consume_packet (record pr { stride = 188 }) 0 188
        ≡ (after_packet pr, packet (take 188 pr.buf))
  unfolding after_packet consume_packet
  consume_found pr = refl

  lose_none : (pr : PacketReader S) → (pr.stride == 0) ≡ true → lose_sync pr ≡ pr
  unfolding lose_sync
  lose_none pr first = then_branch _ first

  pub next_plain :
      (bound fuel : ℕ) (pr : PacketReader S)
      → IsPlain (fill read_into 816 pr)
      → ((fill read_into 816 pr).stride ≡ 0) ⊎ ((fill read_into 816 pr).stride ≡ 188)
      → next_loop read_into (suc bound) (suc fuel) pr
        ≡ some (after_packet (fill read_into 816 pr), packet (take 188 (fill read_into 816 pr).buf))
  unfolding IsPlain next_loop ready_at_stride
  next_plain bound fuel pr (aligned, long, more) (inr known) =
      let pr1 = fill read_into 816 pr in
      let some_bytes : (length pr1.buf == 0) ≡ false = ground (arith, long) in
      let later : (pr1.stride == 0) ≡ false = ground (arith, known) in
      let stands : ready_at_stride read_into pr1 ≡ (pr1, true) =
        else_branch _ later
        ∙ ap (packet_ready_at read_into pr1 0) known
        ∙ ready_lem pr1 (aligned, long, more) in
      let is_found = ap (λ (q : PacketReader S × Bool). q.1) stands in
      let eat : PacketReader S × Bool → Option (PacketReader S × Outcome) =
        λ q. some (consume_packet q.0 0 q.0.stride) in
      rw (some_bytes, is_found, next_loop)
        (ap eat stands ∙ ap some (ap (consume_packet pr1 0) known ∙ consume_plain pr1 known))
  next_plain bound fuel pr (aligned, long, more) (inl unknown) =
      let pr1 = fill read_into 816 pr in
      let some_bytes : (length pr1.buf == 0) ≡ false = ground (arith, long) in
      let first : (pr1.stride == 0) ≡ true = ground (arith, unknown) in
      let stands : ready_at_stride read_into pr1 ≡ (pr1, false) = then_branch _ first in
      let same : lose_sync pr1 ≡ pr1 = lose_none pr1 first in
      let lost = ap (λ (q : PacketReader S × Bool). q.1) stands in
      let pr2 = (ready_at_stride read_into pr1).0 in
      let found : detect_loop read_into (suc bound) (lose_sync pr2) 0 ≡ some (pr1, some (0, 188)) =
        ap (λ (q : PacketReader S × Bool). detect_loop read_into (suc bound) (lose_sync q.0) 0)
          stands
        ∙ ap (λ x. detect_loop read_into (suc bound) x 0) same
        ∙ detect_lem bound pr1 (aligned, long, more) in
      rw (some_bytes, lost, found, next_loop) (ap some (consume_found pr1))
