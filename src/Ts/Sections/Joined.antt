-- ===== src/Ts/Sections/Joined.antt =====
-- ts/section.go: the sections of one packet come out as they were put in.
use mahiron.Prelude.{
  ℕ, zero, suc, ◌+◌, ◌%◌, ◌≤◌, ◌≡◌, refl, sym, ◌∙◌, true, false, not, ◌&&◌, List, [], ◌∷◌, ◌++◌,
  ltb, leb, ◌==◌, inl, inr, Bool-cases, length, length-append, take-append, drop-append,
  get_or-append_left, arith,
}
use mahiron.Ts.{byte_at}
use mahiron.Ts.Sections.{
  Section, total_length, SectionAssembler, consume_payload, start_sections, feed_payload, dropped,
}
use mahiron.Ts.Sections.Whole.{IsWhole}

-- Whole sections, none of which begins like stuffing.
abbrev pub AllSound : List Section → Type 0
AllSound [] = Unit {0}
AllSound (s ∷ ss) = (IsWhole s × ((byte_at s 0 == 0xff) ≡ false)) × AllSound ss

abbrev pub joined : List Section → List ℕ → List ℕ
joined [] rest = rest
joined (s ∷ ss) rest = s ++ joined ss rest

-- Too short for a section, or stuffing.
abbrev pub IsStuffing : List ℕ → Type 0
IsStuffing bytes = (leb 3 (length bytes) && not (byte_at bytes 0 == 0xff)) ≡ false

pub total_length-append : (s t : List ℕ) → 3 ≤ length s → total_length (s ++ t) ≡ total_length s
total_length-append s t le =
    rw (
      get_or-append_left s t 1 0 (omega (arith, le)),
      get_or-append_left s t 2 0 (omega (arith, le)),
    )

consume-joined :
    (fuel : ℕ) (sa : SectionAssembler) (ss : List Section) (rest : List ℕ)
    → length (joined ss rest) ≤ fuel
    → AllSound ss
    → IsStuffing rest
    → consume_payload fuel sa (joined ss rest) ≡ (ss, sa)
unfolding consume_payload
consume-joined zero sa [] rest enough a stuffing = refl
consume-joined zero sa (s ∷ ss) rest enough (((crc, len), begins), a) stuffing =
    absurd (omega (arith, enough, length-append s (joined ss rest), len))
consume-joined (suc fuel) sa [] rest enough a stuffing = rw stuffing
consume-joined (suc fuel) sa (s ∷ ss) rest enough (((crc, len), begins), a) stuffing =
    let t = joined ss rest in
    let total : total_length (s ++ t) ≡ length s =
      total_length-append s t (omega (arith, len)) ∙ sym len in
    let size = length-append s t in
    let first : byte_at (s ++ t) 0 ≡ byte_at s 0 =
      get_or-append_left s t 0 0 (omega (arith, len)) in
    let on : not (leb 3 (length (s ++ t)) && not (byte_at (s ++ t) 0 == 0xff)) ≡ false =
      ground (arith, first, begins, size, len) in
    let there : ltb (length (s ++ t)) (length s) ≡ false = ground (arith, size) in
    let later = consume-joined fuel sa ss rest (omega (arith, enough, size, len)) a stuffing in
    rw (
      on,
      total,
      there,
      take-append (length s) s t refl,
      drop-append (length s) s t refl,
      crc,
      later,
    )

start_sections-joined :
    (sa : SectionAssembler) (ss : List Section) (rest : List ℕ)
    → AllSound ss
    → IsStuffing rest
    → start_sections sa (0 ∷ joined ss rest) ≡ (ss, dropped sa)
unfolding start_sections
start_sections-joined sa ss rest a stuffing =
    let bytes = joined ss rest in
    let none_ended : (ltb 0 (length sa.buffer) && ltb 0 0) ≡ false = ground arith in
    let inside : ltb (length bytes) 0 ≡ false = ground arith in
    let found = consume-joined (length bytes) (dropped sa) ss rest (omega arith) a stuffing in
    rw (none_ended, inside, found)

-- A packet that starts a section, with a pointer of 0, whole sections one after the other, none of
-- which begins with 0xff as stuffing does, and stuffing: whatever the state, just these sections come
-- out, in order, and nothing is kept.
pub feed_payload-joined :
    (sa : SectionAssembler) (counter : ℕ) (ss : List Section) (rest : List ℕ)
    → AllSound ss
    → IsStuffing rest
    → feed_payload sa true counter (0 ∷ joined ss rest)
      ≡ (ss, record sa { buffer = []; expecting = false; last_counter = counter })
unfolding feed_payload start_sections
feed_payload-joined sa counter ss rest a stuffing =
    elim (Bool-cases (sa.expecting && not (counter == (sa.last_counter + 1) % 16))) [
      | inl lost ↦ rw lost (
          start_sections-joined (record (dropped sa) { last_counter = counter }) ss rest a stuffing)
      | inr kept ↦
          rw kept (start_sections-joined (record sa { last_counter = counter }) ss rest a stuffing)
    ]
