-- ===== src/Ts/Reader/Found.antt =====
-- ts/packet.go: every call of `NextInto` returns, and what it returns.
use mahiron.Prelude.{
  ℕ, zero, suc, ◌+◌, ◌-◌, ◌≤◌, ◌≡◌, refl, sym, ap, ◌∙◌, subst, ◌⊎◌, inl, inr, true, Option, none,
  some, some_eq, List, [], ◌∷◌, ◌++◌, append_assoc, ltb, ◌==◌, if◌then◌else◌, length, take, drop,
  length-append, length-take, length-drop, take-drop, drop-drop, get_or-take, get_or-drop,
  Bool-cases, Option-cases, arith,
}
use mahiron.Ts.{byte_at}
use mahiron.Ts.Reader.{
  Reading, PacketReader, Outcome, packet, failure, sync_offset, first_ready, detect_loop,
  consume_packet,
}
use mahiron.Ts.Reader.Kept.{IsByteReader, pending, Follows, Follows-refl, Follows-trans}
use mahiron.Ts.Reader.Looks.{IsReady, IsStride, AllStrides, first_ready-LooksFor}

-- Either no stride is known, or one of the three.
abbrev pub HasStride {ℓ} : {S : Type ℓ} → PacketReader S → Type 0
HasStride pr = (pr.stride ≡ 0) ⊎ IsStride pr.stride

-- What the reader has skipped and given back, against the bytes that could be read: a packet of 188
-- bytes that starts with a sync byte, before the 16 bytes of parity if the packets have those; or the
-- error of the reader below.
abbrev pub Gives {ℓ} :
    {S : Type ℓ} → (S → List ℕ) → PacketReader S → PacketReader S → Outcome → Type 0
Gives left pr pr' (packet bytes) =
    (skipped : List ℕ) × (parity : List ℕ) × (pending left pr
      ≡ skipped ++ (bytes ++ (parity ++ pending left pr')))
    × (length bytes ≡ 188)
    × (byte_at bytes 0 ≡ 0x47)
    × (length parity ≡ (if pr'.stride == 204 then 16 else 0))
Gives left pr pr' (failure e) =
    (skipped : List ℕ) × (pending left pr ≡ skipped ++ pending left pr') × (pr'.read_err ≡ some e)

abbrev pub Returns {ℓ} :
    {S : Type ℓ} → (S → List ℕ) → PacketReader S → Option (PacketReader S × Outcome) → Type ℓ
Returns {S = S} left pr result =
    (pr' : PacketReader S) × (out : Outcome) × (result ≡ some (pr', out))
    × HasStride pr'
    × Gives left pr pr' out

module _ {ℓ} {S : Type ℓ} (left : S → List ℕ) where
  pub onward :
      (pre : List ℕ) (pr x pr' : PacketReader S) (out : Outcome)
      → pending left pr ≡ pre ++ pending left x
      → Gives left x pr' out
      → Gives left pr pr' out
  onward pre pr x pr' (packet bytes) e (skipped, parity, whole, sized, synced, spaced) = (
    pre ++ skipped,
    parity,
    e
        ∙ ap (λ l. pre ++ l) whole
        ∙ sym (append_assoc pre skipped (bytes ++ (parity ++ pending left pr'))),
    sized,
    synced,
    spaced,
  )
  onward pre pr x pr' (failure text) e (skipped, whole, failed) = (
    pre ++ skipped,
    e ∙ ap (λ l. pre ++ l) whole ∙ sym (append_assoc pre skipped (pending left pr')),
    failed,
  )

  pub onward-Returns :
      (pre : List ℕ) (pr x : PacketReader S) (result : Option (PacketReader S × Outcome))
      → pending left pr ≡ pre ++ pending left x
      → Returns left x result
      → Returns left pr result
  onward-Returns pre pr x result e (pr', out, done, stride, gives) =
      (pr', out, done, stride, onward pre pr x pr' out e gives)

  -- A buffer with a packet of 188 bytes in it, and `k` bytes after that.
  cut :
      (buf rest : List ℕ) (start k : ℕ)
      → buf ++ rest
        ≡ take start buf
          ++ (take 188 (drop start buf)
              ++ (take k (drop (start + 188) buf) ++ (drop (start + 188 + k) buf ++ rest)))
  cut buf rest start k =
      let l1 = drop start buf in
      let l2 = drop (start + 188) buf in
      let l3 = drop (start + 188 + k) buf in
      let s1 = take-drop start buf in
      let s2 : take 188 l1 ++ l2 ≡ l1 =
        ap (λ l. take 188 l1 ++ l) (sym (drop-drop 188 start buf)) ∙ take-drop 188 l1 in
      let s3 : take k l2 ++ l3 ≡ l2 =
        ap (λ l. take k l2 ++ l) (sym (drop-drop k (start + 188) buf)) ∙ take-drop k l2 in
      sym (
        ap (λ l. take start buf ++ (take 188 l1 ++ l))
          (sym (append_assoc (take k l2) l3 rest) ∙ ap (λ l. l ++ rest) s3)
        ∙ ap (λ l. take start buf ++ l)
            (sym (append_assoc (take 188 l1) l2 rest) ∙ ap (λ l. l ++ rest) s2)
        ∙ sym (append_assoc (take start buf) l1 rest)
        ∙ ap (λ l. l ++ rest) s1)

  cut_packet :
      (buf rest : List ℕ) (start stop last k : ℕ)
      → stop - start ≡ 188
      → last ≡ start + 188 + k
      → last ≤ length buf
      → byte_at buf start ≡ 0x47
      → (skipped : List ℕ) × (parity : List ℕ) × (buf ++ rest
          ≡ skipped
            ++ (take (stop - start) (drop start buf) ++ (parity ++ (drop last buf ++ rest))))
        × (length (take (stop - start) (drop start buf)) ≡ 188)
        × (byte_at (take (stop - start) (drop start buf)) 0 ≡ 0x47)
        × (length parity ≡ k)
  cut_packet buf rest start stop last k size ends inside synced = (
    take start buf,
    take k (drop (start + 188) buf),
    rw (size, ends) (cut buf rest start k),
    ap (λ n. length (take n (drop start buf))) size
        ∙ length-take 188 (drop start buf) (omega (arith, inside, ends, length-drop start buf)),
    ap (λ n. byte_at (take n (drop start buf)) 0) size
        ∙ get_or-take 188 (drop start buf) 0 0 (omega arith)
        ∙ get_or-drop start buf 0 start 0 (omega arith)
        ∙ synced,
    length-take k (drop (start + 188) buf)
        (omega (arith, inside, ends, length-drop (start + 188) buf)),
  )

  layout :
      (pos stride : ℕ)
      → IsStride stride
      → ((if stride == 204 then pos + 188 else pos + stride)
            - (if stride == 192 then pos + 4 else pos)
          ≡ 188)
        × (pos + stride
            ≡ (if stride == 192 then pos + 4 else pos) + 188 + (if stride == 204 then 16 else 0))
        × (pos + sync_offset stride ≡ (if stride == 192 then pos + 4 else pos))
  layout pos stride (inl e) = (ground (arith, e), ground (arith, e), ground (arith, e))
  layout pos stride (inr (inl e)) = (ground (arith, e), ground (arith, e), ground (arith, e))
  layout pos stride (inr (inr e)) = (ground (arith, e), ground (arith, e), ground (arith, e))

  pub consume_packet-Gives :
      (pr : PacketReader S) (pos stride : ℕ)
      → IsReady pr pos stride
      → IsStride stride
      → pr.stride ≡ stride
      → Gives left pr (consume_packet pr pos stride).0 (consume_packet pr pos stride).1
  unfolding consume_packet
  consume_packet-Gives pr pos stride (inside, synced) is_stride e =
      let (size, ends, start) = layout pos stride is_stride in
      let (skipped, parity, whole, sized, is_sync, spaced) =
        cut_packet pr.buf (left pr.r) (if stride == 192 then pos + 4 else pos)
          (if stride == 204 then pos + 188 else pos + stride) (pos + stride)
          (if stride == 204 then 16 else 0) size ends inside
          (ap (byte_at pr.buf) (sym start) ∙ synced) in
      (
        skipped,
        parity,
        whole,
        sized,
        is_sync,
        spaced ∙ ap (λ n. if n == 204 then 16 else 0) (sym e),
      )

module _ {ℓ} {S : Type ℓ} (read_into : Reading S) (left : S → List ℕ)
    (reader : IsByteReader read_into left) where
  strides-AllStrides : AllStrides (188 ∷ 192 ∷ 204 ∷ [])
  strides-AllStrides = (inl refl, (inr (inl refl), (inr (inr refl), tt)))

  length-pending :
      (pr pr' : PacketReader S)
      → Follows left pr pr'
      → length (pending left pr') ≡ length (pending left pr)
  length-pending pr pr' f = ap length f.whole

  in_stream :
      (pr : PacketReader S) (pos : ℕ)
      → ltb pos (length pr.buf) ≡ true
      → pos + 1 ≤ length (pending left pr)
  in_stream pr pos h = ground (arith, h, length-append pr.buf (left pr.r))

  -- The search ends, with what it has found.
  abbrev pub Detects : PacketReader S → Option (PacketReader S × Option (ℕ × ℕ)) → Type ℓ
  Detects pr result =
      (pr' : PacketReader S) × (found : Option (ℕ × ℕ)) × (result ≡ some (pr', found))
      × Follows left pr pr'
      × ((pos stride : ℕ) → found ≡ some (pos, stride) → IsReady pr' pos stride × IsStride stride)

  pub detect_loop-Detects :
      (fuel : ℕ) (pr : PacketReader S) (pos : ℕ)
      → 1 ≤ fuel
      → length (pending left pr) + 1 ≤ fuel + pos
      → Detects pr (detect_loop read_into fuel pr pos)
  unfolding detect_loop
  detect_loop-Detects zero pr pos positive enough = absurd (omega (arith, positive))
  detect_loop-Detects (suc fuel) pr pos positive enough =
      let (follows, ready) =
        first_ready-LooksFor read_into left reader pr pos (188 ∷ 192 ∷ 204 ∷ [])
          strides-AllStrides in
      let pr' = (first_ready read_into pr pos (188 ∷ 192 ∷ 204 ∷ [])).0 in
      let found = (first_ready read_into pr pos (188 ∷ 192 ∷ 204 ∷ [])).1 in
      elim (Bool-cases (ltb pos (length pr.buf))) [
        | inr at_end ↦
            rw (at_end, detect_loop) (pr, none, refl, Follows-refl left pr, λ p s h. absurd cc)
        | inl inside ↦ elim (Option-cases found) [
          | inr (stride, here) ↦
              rw (inside, here, detect_loop)
                (
                  pr',
                  some (pos, stride),
                  refl,
                  follows,
                  λ p s h.
                      subst (λ (q : ℕ × ℕ). IsReady pr' q.0 q.1 × IsStride q.1)
                        (some_eq (pos, stride) (p, s) h) (ready stride here),
                )
          | inl nothing ↦
              let (pr'', found', done, next, ready') =
                detect_loop-Detects fuel pr' (pos + 1)
                  (omega (arith, enough, in_stream pr pos inside))
                  (omega (arith, enough, length-pending pr pr' follows)) in
              rw (inside, nothing, detect_loop)
                (pr'', found', done, Follows-trans left pr pr' pr'' follows next, ready')
        ]
      ]
