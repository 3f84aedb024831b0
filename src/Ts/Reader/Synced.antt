-- ===== src/Ts/Reader/Synced.antt =====
-- ts/packet.go: bytes with a sync byte at each multiple of 188.
use mahiron.Prelude.{
  ℕ, zero, suc, ◌+◌, ◌*◌, ◌≤◌, ◌<◌, ◌≡◌, refl, sym, ap, ◌∙◌, inl, inr, true, some, List, [], ◌∷◌,
  ◌++◌, ltb, ◌==◌, length, take, length-append, get_or-append_left, get_or-append_right, Bool-cases,
  arith,
}
use mahiron.Ts.{byte_at}
use mahiron.Ts.Reader.{next_syncs}

-- The packets in a row.
unfoldable pub joined : List (List ℕ) → List ℕ
joined [] = []
joined (p ∷ ps) = p ++ joined ps

abbrev pub AllPackets : List (List ℕ) → Type 0
AllPackets [] = Unit
AllPackets (p ∷ ps) = ((length p ≡ 188) × (byte_at p 0 ≡ 0x47)) × AllPackets ps

-- A sync byte at each multiple of 188.
abbrev pub IsAligned : List ℕ → Type 0
IsAligned bytes = (k : ℕ) → k * 188 < length bytes → byte_at bytes (k * 188) ≡ 0x47

pub joined-IsAligned : (ps : List (List ℕ)) → AllPackets ps → IsAligned (joined ps)
unfolding joined
joined-IsAligned [] all k lt = absurd (omega (arith, lt))
joined-IsAligned (p ∷ ps) ((sized, synced), all) zero lt =
    get_or-append_left p (joined ps) 0 0 (omega (arith, sized)) ∙ synced
joined-IsAligned (p ∷ ps) ((sized, synced), all) (suc k) lt =
    get_or-append_right p (joined ps) (k * 188) (suc k * 188) 0 (omega (arith, sized))
    ∙ joined-IsAligned ps all k (omega (arith, lt, sized, length-append p (joined ps)))

pub next_syncs-some :
    (left : ℕ) (buf : List ℕ) (k : ℕ)
    → IsAligned buf
    → (n : ℕ) × (next_syncs left buf 188 (k * 188) ≡ some n)
      × (1 ≤ left → k * 188 < length buf → 1 ≤ n)
unfolding next_syncs
next_syncs-some zero buf k aligned = (0, refl, λ some_left lt. some_left)
next_syncs-some (suc left) buf k aligned =
    let (n, rest, _) = next_syncs-some left buf (suc k) aligned in
    let onward : suc k * 188 ≡ k * 188 + 188 = omega arith in
    let rest' : next_syncs left buf 188 (k * 188 + 188) ≡ some n =
      ap (next_syncs left buf 188) (sym onward) ∙ rest in
    elim (Bool-cases (ltb (k * 188) (length buf))) [
      | inl inside ↦
          let synced : (byte_at buf (k * 188) == 0x47) ≡ true =
            ground (arith, aligned k (ground (arith, inside))) in
          (suc n, rw (inside, synced, rest', next_syncs) refl, λ some_left lt. omega arith)
      | inr outside ↦
          (0, rw (outside, next_syncs) refl, λ some_left lt. absurd (ground (arith, outside, lt)))
    ]

pub prefix-IsAligned : (xs ys : List ℕ) → IsAligned (xs ++ ys) → IsAligned xs
prefix-IsAligned xs ys aligned k lt =
    sym (get_or-append_left xs ys (k * 188) 0 lt)
    ∙ aligned k (omega (arith, lt, length-append xs ys))

pub take_left : (k : ℕ) (xs ys : List ℕ) → k ≤ length xs → take k xs ≡ take k (xs ++ ys)
take_left zero xs ys h = refl
take_left (suc k) [] ys h = absurd (omega (arith, h))
take_left (suc k) (x ∷ xs) ys h = ap (λ l. x ∷ l) (take_left k xs ys (omega (arith, h)))
