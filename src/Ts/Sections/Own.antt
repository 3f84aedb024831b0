-- ===== src/Ts/Sections/Own.antt =====
-- ts/section.go: an assembler stays with its PID.
use mahiron.Prelude.{
  ℕ, zero, suc, ◌+◌, ◌%◌, ◌≡◌, refl, ◌∙◌, Bool, true, false, not, ◌&&◌, List, ◌++◌, ◌==◌,
  if◌then◌else◌, length, drop, arith,
}
use mahiron.Ts.{Packet, byte_at, payload, payload_unit_start_indicator, continuity_counter}
use mahiron.Ts.Sections.{
  total_length, SectionAssembler, Assembled, consume_payload, complete_sections, start_sections,
  feed_payload, feed_all, dropped, settled,
}

consume_payload-pid :
    (fuel : ℕ) (sa : SectionAssembler) (bytes : List ℕ)
    → (consume_payload fuel sa bytes).1.pid ≡ sa.pid
unfolding consume_payload
consume_payload-pid zero sa bytes = refl
consume_payload-pid (suc fuel) sa bytes =
    ground (arith, consume_payload-pid fuel sa (drop (total_length bytes) bytes))

settled-pid : (sa : SectionAssembler) → (settled sa).pid ≡ sa.pid
settled-pid sa = ground arith

complete_sections-pid :
    (fuel : ℕ) (sa : SectionAssembler) → (complete_sections fuel sa).1.pid ≡ sa.pid
unfolding complete_sections
complete_sections-pid zero sa = settled-pid sa
complete_sections-pid (suc fuel) sa =
    let shorter : SectionAssembler = record sa {
      buffer = drop (total_length sa.buffer) sa.buffer;
    } in
    ground (arith, complete_sections-pid fuel shorter, settled-pid sa)

start_sections-pid :
    (sa : SectionAssembler) (bytes : List ℕ) → (start_sections sa bytes).1.pid ≡ sa.pid
unfolding start_sections
start_sections-pid sa bytes =
    let rest = drop 1 bytes in
    ground (arith, consume_payload-pid (length rest) (dropped sa) (drop (byte_at bytes 0) rest))

if_pid : (b : Bool) (x y : SectionAssembler) → x.pid ≡ y.pid → (if b then x else y).pid ≡ y.pid
if_pid true x y e = e
if_pid false x y e = refl

if_pid_of :
    (b : Bool) (x y : Assembled) (p : ℕ)
    → x.1.pid ≡ p
    → y.1.pid ≡ p
    → (if b then x else y).1.pid ≡ p
if_pid_of true x y p e f = e
if_pid_of false x y p e f = f

feed_payload-pid :
    (sa : SectionAssembler) (starts : Bool) (counter : ℕ) (bytes : List ℕ)
    → (feed_payload sa starts counter bytes).1.pid ≡ sa.pid
unfolding feed_payload
feed_payload-pid sa starts counter bytes =
    let lost = sa.expecting && not (counter == (sa.last_counter + 1) % 16) in
    let sa₁ : SectionAssembler = record (if lost then dropped sa else sa) {
      last_counter = counter;
    } in
    let buffer = sa₁.buffer ++ bytes in
    let same = if_pid lost (dropped sa) sa refl in
    if_pid_of starts _ _ sa.pid (start_sections-pid sa₁ bytes ∙ same) (
      if_pid_of (not sa₁.expecting) _ _ sa.pid same
        (complete_sections-pid (length buffer) (record sa₁ { buffer = buffer }) ∙ same))

pub feed_all-pid : (sa : SectionAssembler) (p : Packet) → (feed_all sa p).1.pid ≡ sa.pid
unfolding feed_all
feed_all-pid sa p =
    ground (
      arith,
      feed_payload-pid sa (payload_unit_start_indicator p) (continuity_counter p) (payload p),
    )
