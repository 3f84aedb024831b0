-- ===== src/Ts/Reader/Aligned.antt =====
-- ts/packet.go: a stream of packets of 188 bytes is read packet by packet.
use mahiron.Prelude.{
  ℕ, zero, suc, ◌≤◌, ◌<◌, ◌≡◌, refl, sym, ap, ◌∙◌, subst, ◌⊎◌, inl, inr, true, false, Option, none,
  some, List, [], ◌∷◌, ◌++◌, map, ltb, ◌==◌, length, length-append, else_branch, arith,
}
use mahiron.Packets.{has_error}
use mahiron.Ts.Reader.{Reading, PacketReader, Outcome, packet, failure, fill, next_loop, next_into}
use mahiron.Ts.Reader.Returned.{some_error, at_end}
use mahiron.Ts.Reader.Kept.{IsByteReader, pending, fill_lem}
use mahiron.Ts.Reader.Synced.{joined, AllPackets, IsAligned, joined-IsAligned, prefix-IsAligned}
use mahiron.Ts.Reader.Plain.{
  IsFinite, OnPackets, IsPlain, after_packet, fill-OnPackets, consume_lem, next_plain,
}

module _ {ℓ} {S : Type ℓ} (read_into : Reading S) where
  -- So many calls of `NextInto`, one after the other, and what they return.
  unfoldable pub next_each : ℕ → ℕ → ℕ → ℕ → PacketReader S → Option (List Outcome)
  next_each bound fuel room zero pr = some []
  next_each bound fuel room (suc calls) pr = elim (next_into read_into bound fuel pr room) [
    | none ↦ none
    | some (pr', out) ↦ elim (next_each bound fuel room calls pr') [
      | none ↦ none
      | some outs ↦ some (out ∷ outs)
    ]
  ]

  next_into-loop :
      (bound fuel room : ℕ) (pr : PacketReader S)
      → 188 ≤ room
      → next_into read_into bound fuel pr room ≡ next_loop read_into bound fuel pr
  unfolding next_into
  next_into-loop bound fuel room pr wide =
      let fits : ltb room 188 ≡ false = ground (arith, wide) in else_branch _ fits

module _ {ℓ} {S : Type ℓ} (read_into : Reading S) (left : S → List ℕ) where
  -- What is there of a packet after `fill`.
  plenty :
      (pr : PacketReader S)
      → OnPackets read_into left pr
      → (816 ≤ length pr.buf) ⊎ (has_error pr.read_err ≡ true)
      → 188 ≤ length (pending left pr)
      → (188 ≤ length pr.buf) × ((188 < length pr.buf) ⊎ (has_error pr.read_err ≡ true))
  plenty pr on (inl filled) enough = (omega (arith, filled), inl (omega (arith, filled)))
  plenty pr on (inr ended) enough =
      let (text, e) = some_error pr.read_err ended in
      let none_left = ap length ((on.at_end text e).1) in
      (omega (arith, enough, none_left, length-append pr.buf (left pr.r)), inr ended)

  -- A first packet, in a stream with a sync byte at each multiple of 188.
  next_packet :
      (bound fuel : ℕ) (pr : PacketReader S) (p rest : List ℕ)
      → IsByteReader read_into left
      → IsFinite read_into left
      → OnPackets read_into left pr
      → length p ≡ 188
      → IsAligned (p ++ rest)
      → pending left pr ≡ p ++ rest
      → (pr' : PacketReader S) × (next_loop read_into (suc bound) (suc fuel) pr
          ≡ some (pr', packet p))
        × (pending left pr' ≡ rest)
        × OnPackets read_into left pr'
  unfolding IsPlain after_packet
  next_packet bound fuel pr p rest reader finite on sized aligned e =
      let pr1 = fill read_into 816 pr in
      let (f, filled) = fill_lem read_into left reader 816 pr in
      let on1 = fill-OnPackets read_into left 816 pr finite on in
      let whole = f.whole ∙ e in
      let total = ap length whole ∙ length-append p rest in
      let aligned1 = prefix-IsAligned pr1.buf (left pr1.r) (subst IsAligned (sym whole) aligned) in
      let (long, more) = plenty pr1 on1 filled (omega (arith, total, sized)) in
      let (taken, kept) = consume_lem read_into left pr1 p rest long sized whole in
      (
        after_packet read_into left pr1,
        next_plain read_into left bound fuel pr (aligned1, long, more) on1.plain
            ∙ ap (λ l. some (after_packet read_into left pr1, packet l)) taken,
        kept,
        record { plain = inr refl; at_end = on1.at_end },
      )

  -- At the end of the stream.
  next_end :
      (bound fuel : ℕ) (pr : PacketReader S)
      → IsByteReader read_into left
      → IsFinite read_into left
      → OnPackets read_into left pr
      → pending left pr ≡ []
      → (pr' : PacketReader S) × (next_loop read_into (suc bound) (suc fuel) pr
          ≡ some (pr', failure "EOF"))
  unfolding next_loop
  next_end bound fuel pr reader finite on e =
      let pr1 = fill read_into 816 pr in
      let (f, filled) = fill_lem read_into left reader 816 pr in
      let on1 = fill-OnPackets read_into left 816 pr finite on in
      let none_left = ap length (f.whole ∙ e) in
      let empty : (length pr1.buf == 0) ≡ true =
        ground (arith, none_left, length-append pr1.buf (left pr1.r)) in
      let (text, failed) = some_error pr1.read_err (at_end pr1 empty filled) in
      let is_eof = failed ∙ ap some ((on1.at_end text failed).0) in
      (pr1, rw (empty, is_eof, next_loop) refl)

  -- Of a reader of packets of 188 bytes, each with a sync byte: calls of NextInto give just these
  -- packets in order, and then io.EOF.
  pub next_each-joined :
      (bound fuel room : ℕ) (pr : PacketReader S) (ps : List (List ℕ))
      → IsByteReader read_into left
      → IsFinite read_into left
      → OnPackets read_into left pr
      → 1 ≤ bound
      → 1 ≤ fuel
      → 188 ≤ room
      → AllPackets ps
      → pending left pr ≡ joined ps
      → next_each read_into bound fuel room (suc (length ps)) pr
        ≡ some (map packet ps ++ failure "EOF" ∷ [])
  unfolding next_each joined
  next_each-joined zero fuel room pr ps reader finite on b f wide all e = absurd (omega (arith, b))
  next_each-joined (suc bound) zero room pr ps reader finite on b f wide all e =
      absurd (omega (arith, f))
  next_each-joined (suc bound) (suc fuel) room pr [] reader finite on b f wide all e =
      let (pr', ends) = next_end bound fuel pr reader finite on e in
      let call = next_into-loop read_into (suc bound) (suc fuel) room pr wide ∙ ends in
      let then_list : Option (PacketReader S × Outcome) → Option (List Outcome) =
        λ o. elim o [ none ↦ none | some x ↦ some (x.1 ∷ []) ] in
      ap then_list call
  next_each-joined (suc bound) (suc fuel) room pr (p ∷ ps) reader finite on b f wide
        ((sized, synced), all) e =
      let (pr', found, kept, on') =
        next_packet bound fuel pr p (joined ps) reader finite on sized
          (joined-IsAligned (p ∷ ps) ((sized, synced), all)) e in
      let call = next_into-loop read_into (suc bound) (suc fuel) room pr wide ∙ found in
      let rest =
        next_each-joined (suc bound) (suc fuel) room pr' ps reader finite on' b f wide all kept in
      let then_rest : Option (PacketReader S × Outcome) → Option (List Outcome) = λ o. elim o [
        | none ↦ none
        | some x ↦ elim (next_each read_into (suc bound) (suc fuel) room (suc (length ps)) x.0) [
          | none ↦ none
          | some outs ↦ some (x.1 ∷ outs)
        ]
      ] in
      let then_cons : Option (List Outcome) → Option (List Outcome) =
        λ o. elim o [ none ↦ none | some outs ↦ some (packet p ∷ outs) ] in
      ap then_rest call ∙ ap then_cons rest
