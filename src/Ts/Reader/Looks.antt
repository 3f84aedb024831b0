-- ===== src/Ts/Reader/Looks.antt =====
-- ts/packet.go: looking for a whole packet at a place.
use mahiron.Prelude.{
  ℕ, ◌+◌, ◌-◌, ◌≤◌, ◌≡◌, refl, ap, ◌∙◌, subst, ◌⊎◌, inl, inr, Bool, true, false, ◌||◌, not, ◌&&◌,
  Option, some, List, [], ◌∷◌, leb, ltb, ◌==◌, length, ==→eq, get_or-append_left, ◌<◌, Bool-cases,
  some_eq, arith,
}
use mahiron.Packets.{has_error}
use mahiron.Ts.{byte_at}
use mahiron.Ts.Reader.{
  Reading, PacketReader, sync_offset, fill_packet, packet_ready_at, first_ready,
}
use mahiron.Ts.Reader.Kept.{IsByteReader, Follows, Follows-refl, Follows-trans, fill_lem}

-- A whole packet of this stride, with a sync byte.
abbrev pub IsReady {ℓ} : {S : Type ℓ} → PacketReader S → ℕ → ℕ → Type 0
IsReady pr pos stride =
    (pos + stride ≤ length pr.buf) × (byte_at pr.buf (pos + sync_offset stride) ≡ 0x47)

-- The strides that are tried.
abbrev pub IsStride : ℕ → Type 0
IsStride stride = (stride ≡ 188) ⊎ ((stride ≡ 192) ⊎ (stride ≡ 204))

abbrev pub AllStrides : List ℕ → Type 0
AllStrides [] = Unit
AllStrides (stride ∷ strides) = IsStride stride × AllStrides strides

pub stride-positive : (stride : ℕ) → IsStride stride → 1 ≤ stride
stride-positive stride (inl e) = omega (arith, e)
stride-positive stride (inr (inl e)) = omega (arith, e)
stride-positive stride (inr (inr e)) = omega (arith, e)

module _ {ℓ} {S : Type ℓ} (read_into : Reading S) (left : S → List ℕ)
    (reader : IsByteReader read_into left) where
  fill_packet-Follows :
      (pr : PacketReader S) (pos stride : ℕ) → Follows left pr (fill_packet read_into pr pos stride)
  unfolding fill_packet
  fill_packet-Follows pr pos stride =
      elim (Bool-cases (ltb (length pr.buf - pos) stride && not (has_error pr.read_err))) [
        | inl short ↦ rw (short, fill_packet) (fill_lem read_into left reader (pos + stride) pr).0
        | inr long ↦ rw (long, fill_packet) (Follows-refl left pr)
      ]

  -- What a look at a place leaves, and what it has found.
  abbrev pub Looks : PacketReader S → ℕ → ℕ → PacketReader S × Bool → Type ℓ
  Looks pr pos stride result =
      Follows left pr result.0 × (result.1 ≡ true → IsReady result.0 pos stride)

  sync_here :
      (n k : ℕ) (is_sync : Bool) → (leb n k || not is_sync) ≡ false → (k < n) × (is_sync ≡ true)
  sync_here n k true h = (ground (arith, h), refl)
  sync_here n k false h = absurd (ground (arith, h))

  and_left : (a b : Bool) → (a && b) ≡ true → a ≡ true
  and_left true b h = refl
  and_left false b h = h

  long_enough :
      (n pos stride : ℕ) → 1 ≤ stride → not (ltb (n - pos) stride) ≡ true → pos + stride ≤ n
  long_enough n pos stride positive h = ground (arith, h)

  pub packet_ready_at-Looks :
      (pr : PacketReader S) (pos stride : ℕ)
      → 1 ≤ stride
      → Looks pr pos stride (packet_ready_at read_into pr pos stride)
  unfolding packet_ready_at
  packet_ready_at-Looks pr pos stride positive =
      elim (Bool-cases (
        leb (length pr.buf) (pos + sync_offset stride)
        || not (byte_at pr.buf (pos + sync_offset stride) == 0x47))) [
          | inl out ↦ rw (out, packet_ready_at) (Follows-refl left pr, λ h. absurd cc)
          | inr here ↦
              let follows = fill_packet-Follows pr pos stride in
              let pr' = fill_packet read_into pr pos stride in
              rw (here, packet_ready_at)
                (
                  follows,
                  λ ready.
                      let (inside, is_sync) =
                        sync_here (length pr.buf) (pos + sync_offset stride)
                          (byte_at pr.buf (pos + sync_offset stride) == 0x47) here in
                      (
                        long_enough (length pr'.buf) pos stride positive (and_left _ _ ready),
                        ap (λ l. byte_at l (pos + sync_offset stride)) follows.grown
                            ∙ get_or-append_left pr.buf follows.more (pos + sync_offset stride) 0
                                inside
                            ∙ ==→eq _ 0x47 is_sync,
                      ),
                )
        ]

  abbrev pub LooksFor : PacketReader S → ℕ → PacketReader S × Option ℕ → Type ℓ
  LooksFor pr pos result =
      Follows left pr result.0
      × ((stride : ℕ) → result.1 ≡ some stride → IsReady result.0 pos stride × IsStride stride)

  pub first_ready-LooksFor :
      (pr : PacketReader S) (pos : ℕ) (strides : List ℕ)
      → AllStrides strides
      → LooksFor pr pos (first_ready read_into pr pos strides)
  unfolding first_ready
  first_ready-LooksFor pr pos [] u = (Follows-refl left pr, λ stride h. absurd cc)
  first_ready-LooksFor pr pos (stride ∷ strides) (is_stride, u) =
      let looks = packet_ready_at-Looks pr pos stride (stride-positive stride is_stride) in
      let pr' = (packet_ready_at read_into pr pos stride).0 in
      elim (Bool-cases (packet_ready_at read_into pr pos stride).1) [
        | inl ready ↦
            rw (ready, first_ready)
              (
                looks.0,
                λ s found.
                    subst (λ k. IsReady pr' pos k × IsStride k) (some_eq stride s found)
                      (looks.1 ready, is_stride),
              )
        | inr other ↦
            let (next, found) = first_ready-LooksFor pr' pos strides u in
            rw (other, first_ready) (Follows-trans left pr pr' _ looks.0 next, found)
      ]
