-- ===== src/Ts/Sections/Whole.antt =====
-- ts/section.go: every section that the assembler returns is whole, and its CRC is right.
use mahiron.Prelude.{
  ℕ, zero, suc, ◌+◌, ◌%◌, ◌≤◌, ◌≡◌, sym, ◌∙◌, Bool, true, false, not, ◌&&◌, ◌||◌, List, [], ◌∷◌,
  ◌++◌, ltb, leb, ◌==◌, inl, inr, Bool-cases, if◌then◌else◌, length, take, drop, length-take,
  get_or-take, arith,
}
use mahiron.Ts.{
  Packet, byte_at, transport_error_indicator, payload_unit_start_indicator, pid, has_payload,
  continuity_counter, payload,
}
use mahiron.Ts.Sections.{
  Section, total_length, validate_crc, SectionAssembler, Assembled, with_valid, consume_payload,
  complete_sections, dropped, start_sections, feed_payload, feed_all,
}

-- What `ValidateCRC` says, and that nothing follows the section.
abbrev pub IsWhole : Section → Type 0
IsWhole s = (validate_crc s ≡ true) × (length s ≡ total_length s)

abbrev pub AllWhole : List Section → Type 0
AllWhole [] = Unit {0}
AllWhole (s ∷ ss) = IsWhole s × AllWhole ss

AllWhole-append : (ss ts : List Section) → AllWhole ss → AllWhole ts → AllWhole (ss ++ ts)
AllWhole-append [] ts a b = b
AllWhole-append (s ∷ ss) ts (w, a) b = (w, AllWhole-append ss ts a b)

-- The bytes of the length are among the first three.
total_length-take :
    (n : ℕ) (bytes : List ℕ) → 3 ≤ n → total_length (take n bytes) ≡ total_length bytes
total_length-take n bytes le =
    rw (get_or-take n bytes 1 0 (omega (arith, le)), get_or-take n bytes 2 0 (omega (arith, le)))

with_valid-AllWhole :
    (bytes : List ℕ) (ss : List Section)
    → total_length bytes ≤ length bytes
    → AllWhole ss
    → AllWhole (with_valid (take (total_length bytes) bytes) ss)
with_valid-AllWhole bytes ss le w =
    elim (Bool-cases (validate_crc (take (total_length bytes) bytes))) [
      | inl good ↦ rw good (
        (
          good,
          length-take (total_length bytes) bytes le
              ∙ sym (total_length-take (total_length bytes) bytes (omega arith)),
        ),
        w,
      )
      | inr bad ↦ rw bad w
    ]

consume_payload-AllWhole :
    (fuel : ℕ) (sa : SectionAssembler) (bytes : List ℕ) → AllWhole (consume_payload fuel sa bytes).0
unfolding consume_payload
consume_payload-AllWhole zero sa bytes = tt
consume_payload-AllWhole (suc fuel) sa bytes =
    let rest = consume_payload-AllWhole fuel sa (drop (total_length bytes) bytes) in
    elim (Bool-cases (not (leb 3 (length bytes) && not (byte_at bytes 0 == 0xff)))) [
      | inl over ↦ rw over tt
      | inr more ↦ elim (Bool-cases (ltb (length bytes) (total_length bytes))) [
        | inl short ↦ rw (more, short) tt
        | inr there ↦ rw (more, there) (with_valid-AllWhole bytes _ (ground (arith, there)) rest)
      ]
    ]

complete_sections-AllWhole :
    (fuel : ℕ) (sa : SectionAssembler) → AllWhole (complete_sections fuel sa).0
unfolding complete_sections
complete_sections-AllWhole zero sa = tt
complete_sections-AllWhole (suc fuel) sa =
    let total = total_length sa.buffer in
    let rest = complete_sections-AllWhole fuel (record sa { buffer = drop total sa.buffer }) in
    elim (Bool-cases (ltb (length sa.buffer) 3)) [
      | inl over ↦ rw over tt
      | inr more ↦ elim (Bool-cases (ltb (length sa.buffer) total)) [
        | inl short ↦ rw (more, short) tt
        | inr there ↦
            rw (more, there) (with_valid-AllWhole sa.buffer _ (ground (arith, there)) rest)
      ]
    ]

if_AllWhole :
    (b : Bool) (x y : Assembled) → AllWhole x.0 → AllWhole y.0 → AllWhole (if b then x else y).0
if_AllWhole true x y p q = p
if_AllWhole false x y p q = q

some_AllWhole : (b : Bool) (ss : List Section) → AllWhole ss → AllWhole (if b then ss else [])
some_AllWhole true ss w = w
some_AllWhole false ss w = tt

start_sections-AllWhole :
    (sa : SectionAssembler) (bytes : List ℕ) → AllWhole (start_sections sa bytes).0
unfolding start_sections
start_sections-AllWhole sa bytes =
    let pointer = byte_at bytes 0 in
    let rest = drop 1 bytes in
    let buffer = sa.buffer ++ take pointer rest in
    let more = consume_payload (length rest) (dropped sa) (drop pointer rest) in
    let whole = complete_sections (length buffer) (record sa { buffer = buffer }) in
    let both = ltb 0 (length sa.buffer) && ltb 0 pointer in
    let ended : List Section = if both then whole.0 else [] in
    if_AllWhole (ltb (length rest) pointer) ([], dropped sa) (ended ++ more.0, more.1) tt
      (AllWhole-append ended more.0
        (some_AllWhole both whole.0
          (complete_sections-AllWhole (length buffer) (record sa { buffer = buffer })))
        (consume_payload-AllWhole (length rest) (dropped sa) (drop pointer rest)))

feed_payload-AllWhole :
    (sa : SectionAssembler) (starts : Bool) (counter : ℕ) (bytes : List ℕ)
    → AllWhole (feed_payload sa starts counter bytes).0
unfolding feed_payload
feed_payload-AllWhole sa starts counter bytes =
    let lost = sa.expecting && not (counter == (sa.last_counter + 1) % 16) in
    let sa₁ : SectionAssembler = record (if lost then dropped sa else sa) {
      last_counter = counter;
    } in
    let buffer = sa₁.buffer ++ bytes in
    let whole = complete_sections (length buffer) (record sa₁ { buffer = buffer }) in
    if_AllWhole starts (start_sections sa₁ bytes) (if not sa₁.expecting then ([], sa₁) else whole)
      (start_sections-AllWhole sa₁ bytes)
      (if_AllWhole (not sa₁.expecting) ([], sa₁) whole tt
        (complete_sections-AllWhole (length buffer) (record sa₁ { buffer = buffer })))

-- Whatever the packets and the state: each section that `FeedAll` returns passes `ValidateCRC`, and
-- its length is just what its header says.
pub feed_all-AllWhole : (sa : SectionAssembler) (p : Packet) → AllWhole (feed_all sa p).0
unfolding feed_all
feed_all-AllWhole sa p =
    let found =
      feed_payload sa (payload_unit_start_indicator p) (continuity_counter p) (payload p) in
    if_AllWhole (not (pid p == sa.pid) || transport_error_indicator p || not (has_payload p))
      ([], sa) (if length (payload p) == 0 then ([], sa) else found) tt
      (if_AllWhole (length (payload p) == 0) ([], sa) found tt
        (feed_payload-AllWhole sa (payload_unit_start_indicator p) (continuity_counter p)
          (payload p)))
