-- ===== src/Ts/Reader/Returned.antt =====
-- ts/packet.go: every call of `NextInto` returns a packet of the stream, or the error of the reader
-- below.
use mahiron.Prelude.{
  ℕ, zero, suc, ◌+◌, ◌≤◌, ◌≡◌, refl, sym, ap, ◌∙◌, subst, ◌⊎◌, inl, inr, String, true, false,
  Option, none, some, List, [], ◌++◌, append_assoc, ltb, ◌==◌, ==→eq, length, take, length-append,
  take-drop, Bool-cases, Option-cases, then_branch, else_branch, arith,
}
use mahiron.Packets.{has_error}
use mahiron.Ts.Reader.{
  Reading, PacketReader, failure, last_sync, skip_garbage, fill, consume_packet, ready_at_stride,
  lose_sync, fill_more, fill_failure, next_loop, next_into,
}
use mahiron.Ts.Reader.Kept.{IsByteReader, pending, todo, Follows, Follows-refl, fill_lem, fill-less}
use mahiron.Ts.Reader.Looks.{IsReady, IsStride, stride-positive, packet_ready_at-Looks}
use mahiron.Ts.Reader.Found.{
  HasStride, Returns, onward, onward-Returns, consume_packet-Gives, detect_loop-Detects,
}

skip_garbage-suffix : (buf : List ℕ) → (skipped : List ℕ) × buf ≡ skipped ++ skip_garbage buf
unfolding skip_garbage
skip_garbage-suffix buf = elim (Option-cases (last_sync none 0 buf)) [
  | inl nowhere ↦ rw (nowhere, skip_garbage) ([], refl)
  | inr (i, there) ↦ elim (Bool-cases (ltb 0 i)) [
    | inl later ↦ rw (there, later, skip_garbage) (take i buf, sym (take-drop i buf))
    | inr first ↦ rw (there, first, skip_garbage) ([], refl)
  ]
]

pub some_error : (e : Option String) → has_error e ≡ true → (text : String) × e ≡ some text
some_error none h = absurd cc
some_error (some text) h = (text, refl)

pub at_end {ℓ} :
    {S : Type ℓ} (pr : PacketReader S)
    → (length pr.buf == 0) ≡ true
    → (816 ≤ length pr.buf) ⊎ (has_error pr.read_err ≡ true)
    → has_error pr.read_err ≡ true
at_end pr empty (inl filled) = absurd (ground (arith, empty, filled))
at_end pr empty (inr ended) = ended

module _ {ℓ} {S : Type ℓ} where
  lose_sync-r :
      (pr : PacketReader S) → (left : S → List ℕ) → pending left (lose_sync pr) ≡ pending left pr
  unfolding lose_sync
  lose_sync-r pr left = elim (Bool-cases (pr.stride == 0)) [
    | inl unknown ↦ rw (unknown, lose_sync) refl
    | inr known ↦ rw (known, lose_sync) refl
  ]

  lose_sync-todo :
      (pr : PacketReader S) → (left : S → List ℕ) → todo left (lose_sync pr) ≡ todo left pr
  unfolding lose_sync
  lose_sync-todo pr left = elim (Bool-cases (pr.stride == 0)) [
    | inl unknown ↦ rw (unknown, lose_sync) refl
    | inr known ↦ rw (known, lose_sync) refl
  ]

  lose_sync-stride : (pr : PacketReader S) → (lose_sync pr).stride ≡ 0
  unfolding lose_sync
  lose_sync-stride pr = elim (Bool-cases (pr.stride == 0)) [
    | inl unknown ↦ ap PacketReader.stride (then_branch _ unknown) ∙ ==→eq pr.stride 0 unknown
    | inr known ↦ ap PacketReader.stride (else_branch pr known)
  ]

  fill_failure-error :
      (pr : PacketReader S) (e : String) → fill_failure pr ≡ some e → pr.read_err ≡ some e
  fill_failure-error pr e h = elim (Bool-cases (length pr.buf == 0)) [
    | inl empty ↦ sym (then_branch none empty) ∙ h
    | inr more ↦
        let no : Path (Option String) none (some e) = sym (else_branch pr.read_err more) ∙ h in
        absurd cc
  ]

module _ {ℓ} {S : Type ℓ} (read_into : Reading S) (left : S → List ℕ)
    (reader : IsByteReader read_into left) where
  ready_at_stride-Stands :
      (pr : PacketReader S)
      → HasStride pr
      → Follows left pr (ready_at_stride read_into pr).0
        × ((ready_at_stride read_into pr).1 ≡ true
            → IsReady (ready_at_stride read_into pr).0 0 pr.stride × IsStride pr.stride)
  unfolding ready_at_stride
  ready_at_stride-Stands pr (inl unknown) =
      let first : (pr.stride == 0) ≡ true = ground (arith, unknown) in
      rw (first, ready_at_stride) (Follows-refl left pr, λ h. absurd cc)
  ready_at_stride-Stands pr (inr is_stride) =
      let positive = stride-positive pr.stride is_stride in
      let known : (pr.stride == 0) ≡ false = ground (arith, positive) in
      let (f, found) = packet_ready_at-Looks read_into left reader pr 0 pr.stride positive in
      rw (known, ready_at_stride) (f, λ h. (found h, is_stride))

  fill_more-Moves :
      (pr : PacketReader S)
      → pr.read_err ≡ none
      → (skipped : List ℕ) × (pending left pr ≡ skipped ++ pending left (fill_more read_into pr))
        × (todo left (fill_more read_into pr) + 1 ≤ todo left pr)
        × ((fill_more read_into pr).stride ≡ pr.stride)
  unfolding fill_more
  fill_more-Moves pr going =
      let (skipped, e) = skip_garbage-suffix pr.buf in
      let kept : PacketReader S = record pr { buf = skip_garbage pr.buf } in
      let (f, _) = fill_lem read_into left reader (length (skip_garbage pr.buf) + 816) kept in
      (
        skipped,
        ap (λ l. l ++ left pr.r) e
            ∙ append_assoc skipped (skip_garbage pr.buf) (left pr.r)
            ∙ ap (λ l. skipped ++ l) (sym f.whole),
        fill-less read_into left reader (length (skip_garbage pr.buf) + 816) kept
            (ap has_error going) (omega arith),
        f.same_stride,
      )

  next_loop-Returns :
      (bound fuel : ℕ) (pr : PacketReader S)
      → HasStride pr
      → length (pending left pr) + 1 ≤ bound
      → todo left pr + 1 ≤ fuel
      → Returns left pr (next_loop read_into bound fuel pr)
  unfolding next_loop
  next_loop-Returns bound zero pr has_stride wide enough = absurd (omega (arith, enough))
  next_loop-Returns bound (suc fuel) pr has_stride wide enough =
      let pr1 = fill read_into 816 pr in
      let (f1, filled) = fill_lem read_into left reader 816 pr in
      let has_stride1 = subst (λ n. (n ≡ 0) ⊎ IsStride n) (sym f1.same_stride) has_stride in
      let (f2, ready) = ready_at_stride-Stands pr1 has_stride1 in
      let pr2 = (ready_at_stride read_into pr1).0 in
      let whole2 = sym (f2.whole ∙ f1.whole) in
      elim (Bool-cases (length pr1.buf == 0)) [
        | inl empty ↦
            let (text, e) = some_error pr1.read_err (at_end pr1 empty filled) in
            rw (empty, e, next_loop) (pr1, failure text, refl, has_stride1, ([], sym f1.whole, e))
        | inr some_bytes ↦ elim (Bool-cases (ready_at_stride read_into pr1).1) [
          | inl found ↦
              let (is_ready, is_stride) = ready found in
              let same = sym f2.same_stride in
              let is_ready2 =
                subst (λ n. IsReady pr2 0 n × IsStride n) same (is_ready, is_stride) in
              let given = consume_packet-Gives left pr2 0 pr2.stride is_ready2.0 is_ready2.1 refl in
              rw (some_bytes, found, next_loop)
                (
                  _,
                  _,
                  refl,
                  inr is_ready2.1,
                  onward left [] pr pr2 (consume_packet pr2 0 pr2.stride).0
                      (consume_packet pr2 0 pr2.stride).1 whole2 given,
                )
          | inr lost ↦
              let x = lose_sync pr2 in
              let whole_x = whole2 ∙ sym (lose_sync-r pr2 left) in
              let (pr3, found, done, f3, ready3) =
                detect_loop-Detects read_into left reader bound x 0 (omega (arith, wide))
                  (omega (arith, wide, ap length whole_x)) in
              let stride3 : pr3.stride ≡ 0 = f3.same_stride ∙ lose_sync-stride pr2 in
              let whole3 = whole_x ∙ sym f3.whole in
              elim (Option-cases found) [
                | inr (at, here) ↦
                    let (is_ready, is_stride) = ready3 at.0 at.1 here in
                    let pr4 : PacketReader S = record pr3 { stride = at.1 } in
                    let given = consume_packet-Gives left pr4 at.0 at.1 is_ready is_stride refl in
                    rw (some_bytes, lost, done, here, next_loop)
                      (
                        _,
                        _,
                        refl,
                        inr is_stride,
                        onward left [] pr pr4 (consume_packet pr4 at.0 at.1).0
                            (consume_packet pr4 at.0 at.1).1 whole3 given,
                      )
                | inl nothing ↦ elim (Option-cases pr3.read_err) [
                  | inr (e, failed) ↦
                      rw (some_bytes, lost, done, nothing, failed, next_loop)
                        (pr3, failure e, refl, inl stride3, ([], whole3, failed))
                  | inl going ↦
                      let (skipped, whole4, less, same) = fill_more-Moves pr3 going in
                      let y = fill_more read_into pr3 in
                      let whole_y = whole3 ∙ whole4 in
                      elim (Option-cases (fill_failure y)) [
                        | inr (e, failed) ↦
                            rw (some_bytes, lost, done, nothing, going, failed, next_loop)
                              (
                                y,
                                failure e,
                                refl,
                                inl (same ∙ stride3),
                                (skipped, whole_y, fill_failure-error y e failed),
                              )
                        | inl fine ↦
                            let next =
                              next_loop-Returns bound fuel y (inl (same ∙ stride3))
                                (omega (
                                  arith,
                                  wide,
                                  ap length whole_y,
                                  length-append skipped (pending left y),
                                ))
                                (omega (
                                  arith,
                                  enough,
                                  less,
                                  f3.less,
                                  lose_sync-todo pr2 left,
                                  f2.less,
                                  f1.less,
                                )) in
                            rw (some_bytes, lost, done, nothing, going, fine, next_loop)
                              (onward-Returns left skipped pr y _ whole_y next)
                      ]
                ]
              ]
        ]
      ]

  -- With room for a packet, and fuel for the bytes that come: every call returns. It skips bytes of
  -- the stream, and either gives the 188 bytes after those, which start with a sync byte, and where
  -- the packets are 204 bytes apart takes 16 more; or it gives the error of the reader below. All
  -- other bytes can still be read, and the reader has no stride, or one of the three.
  pub next_into-Returns :
      (bound fuel room : ℕ) (pr : PacketReader S)
      → 188 ≤ room
      → HasStride pr
      → length (pending left pr) + 1 ≤ bound
      → todo left pr + 1 ≤ fuel
      → Returns left pr (next_into read_into bound fuel pr room)
  unfolding next_into
  next_into-Returns bound fuel room pr wide_room has_stride wide enough =
      let fits : ltb room 188 ≡ false = ground (arith, wide_room) in
      rw (fits, next_into) (next_loop-Returns bound fuel pr has_stride wide enough)
