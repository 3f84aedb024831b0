-- ===== src/Ts/Packetize/Ends.antt =====
-- ts/section.go: what is assembled at the end of a section that was cut, and before it.
use mahiron.Prelude.{
  ℕ, zero, suc, ◌+◌, ◌≤◌, ◌<◌, ◌≡◌, refl, sym, ap, ◌∙◌, true, false, List, [], ◌∷◌, ◌++◌, ltb, inl,
  inr, Bool-cases, length, take, drop, replicate, length-append, length-replicate, take-append,
  drop-append, arith,
}
use mahiron.Ts.Sections.{Section, total_length, SectionAssembler, complete_sections}
use mahiron.Ts.Sections.Whole.{IsWhole}
use mahiron.Ts.Sections.Joined.{total_length-append}

total_length-replicate : (n : ℕ) → 3 ≤ n → total_length (replicate n 0xff) ≡ 4098
total_length-replicate zero h = absurd (omega (arith, h))
total_length-replicate (suc zero) h = absurd (omega (arith, h))
total_length-replicate (suc (suc zero)) h = absurd (omega (arith, h))
total_length-replicate (suc (suc (suc n))) h = refl

-- Stuffing is never a section.
complete-stuffing :
    (fuel : ℕ) (sa : SectionAssembler) (n : ℕ)
    → n ≤ 184
    → sa.buffer ≡ replicate n 0xff
    → (complete_sections fuel sa).0 ≡ []
unfolding complete_sections
complete-stuffing zero sa n small is = refl
complete-stuffing (suc fuel) sa n small is =
    let size : length sa.buffer ≡ n = ap length is ∙ length-replicate {A = ℕ} n 0xff in
    elim (Bool-cases (ltb (length sa.buffer) 3)) [
      | inl short ↦ rw short refl
      | inr more ↦
          let total = ap total_length is ∙ total_length-replicate n (ground (arith, more, size)) in
          let cut : ltb (length sa.buffer) (total_length sa.buffer) ≡ true =
            ground (arith, size, total) in
          rw (more, cut) refl
    ]

-- The end of a section, and stuffing.
pub complete-ended :
    (fuel : ℕ) (sa : SectionAssembler) (s : Section) (n : ℕ)
    → IsWhole s
    → 1 ≤ fuel
    → n ≤ 184
    → sa.buffer ≡ s ++ replicate n 0xff
    → (complete_sections fuel sa).0 ≡ s ∷ []
unfolding complete_sections
complete-ended zero sa s n whole some_fuel small is = absurd (omega (arith, some_fuel))
complete-ended (suc fuel) sa s n (crc, len) some_fuel small is =
    let pad : List ℕ = replicate n 0xff in
    let total : total_length sa.buffer ≡ length s =
      ap total_length is ∙ total_length-append s pad (omega (arith, len)) ∙ sym len in
    let size : length sa.buffer ≡ length s + length pad = ap length is ∙ length-append s pad in
    let enough : ltb (length sa.buffer) 3 ≡ false = ground (arith, size, len) in
    let inside : ltb (length sa.buffer) (total_length sa.buffer) ≡ false =
      ground (arith, size, total) in
    let took : take (total_length sa.buffer) sa.buffer ≡ s =
      ap (λ l. take (total_length sa.buffer) l) is
      ∙ take-append (total_length sa.buffer) s pad (sym total) in
    let left : drop (total_length sa.buffer) sa.buffer ≡ pad =
      ap (λ l. drop (total_length sa.buffer) l) is
      ∙ drop-append (total_length sa.buffer) s pad (sym total) in
    let later =
      complete-stuffing fuel (record sa { buffer = drop (total_length sa.buffer) sa.buffer }) n
        small left in
    rw (enough, inside, took, crc) (ap (λ l. s ∷ l) later)

-- A part of a section waits for the rest.
pub complete-partial :
    (fuel : ℕ) (sa : SectionAssembler)
    → 1 ≤ fuel
    → 3 ≤ length sa.buffer
    → length sa.buffer < total_length sa.buffer
    → complete_sections fuel sa ≡ ([], record sa { expecting = true })
unfolding complete_sections
complete-partial zero sa some_fuel long cut = absurd (omega (arith, some_fuel))
complete-partial (suc fuel) sa some_fuel long cut =
    let enough : ltb (length sa.buffer) 3 ≡ false = ground arith in
    let short : ltb (length sa.buffer) (total_length sa.buffer) ≡ true = ground arith in
    rw (enough, short) refl
