-- ===== src/Ts/Packetize/Steps.antt =====
-- ts/demux.go and ts/section.go: one packet of a section that is cut.
use mahiron.Prelude.{
  ℕ, zero, suc, ◌+◌, ◌-◌, ◌%◌, ◌≤◌, ◌<◌, ◌≡◌, refl, ap, ◌∙◌, Bool, true, false, not, ◌&&◌, ◌||◌,
  List, [], ◌∷◌, ◌++◌, append-nil, ltb, leb, ◌==◌, inl, inr, Bool-cases, length, drop, replicate,
  leb→le, ◌⊎◌, arith,
}
use mahiron.Ts.{Packet, byte_at}
use mahiron.Ts.Sections.{
  Section, total_length, SectionAssembler, Assembled, consume_payload, complete_sections,
  start_sections, feed_payload, feed_all, dropped,
}
use mahiron.Ts.Sections.Joined.{IsStuffing}
use mahiron.Ts.Packetize.{header_of, filled, packetize_loop}

-- The packets one after the other.
abbrev pub feed_each : SectionAssembler → List Packet → Assembled
feed_each sa [] = ([], sa)
feed_each sa (p ∷ ps) =
    let now = feed_all sa p in let later = feed_each now.1 ps in (now.0 ++ later.0, later.1)

pub feed_payload-goes_on :
    (sa : SectionAssembler) (counter : ℕ) (bytes : List ℕ)
    → sa.expecting ≡ true
    → counter ≡ (sa.last_counter + 1) % 16
    → feed_payload sa false counter bytes
      ≡ complete_sections
          (length (sa.buffer ++ bytes))
          (record sa { last_counter = counter; buffer = sa.buffer ++ bytes })
unfolding feed_payload
feed_payload-goes_on sa counter bytes waits next =
    let kept : (sa.expecting && not (counter == (sa.last_counter + 1) % 16)) ≡ false =
      ground (arith, next) in
    let on : not sa.expecting ≡ false = ap not waits in rw (kept, on) refl

pub le_or_lt : (a b : ℕ) → (a ≤ b) ⊎ (b < a)
le_or_lt a b = elim (Bool-cases (leb a b)) [
  | inl le ↦ inl (leb→le a b le)
  | inr gt ↦ inr (ground (arith, gt))
]

pub stuffing_lem : (n : ℕ) → IsStuffing (replicate n 0xff)
stuffing_lem zero = refl
stuffing_lem (suc n) = ground arith

consume-partial :
    (fuel : ℕ) (sa : SectionAssembler) (bytes : List ℕ)
    → 3 ≤ length bytes
    → length bytes ≤ fuel
    → length bytes < total_length bytes
    → (byte_at bytes 0 == 0xff) ≡ false
    → consume_payload fuel sa bytes ≡ ([], record sa { buffer = bytes; expecting = true })
unfolding consume_payload
consume-partial zero sa bytes long enough cut begins = absurd (omega (arith, long, enough))
consume-partial (suc fuel) sa bytes long enough cut begins =
    let on : not (leb 3 (length bytes) && not (byte_at bytes 0 == 0xff)) ≡ false =
      ground (arith, begins) in
    let short : ltb (length bytes) (total_length bytes) ≡ true = ground arith in rw (on, short) refl

start_sections-begun :
    (sa : SectionAssembler) (bytes : List ℕ)
    → 3 ≤ length bytes
    → length bytes < total_length bytes
    → (byte_at bytes 0 == 0xff) ≡ false
    → start_sections sa (0 ∷ bytes) ≡ ([], record sa { buffer = bytes; expecting = true })
unfolding start_sections
start_sections-begun sa bytes long cut begins =
    let none_ended : (ltb 0 (length sa.buffer) && ltb 0 0) ≡ false = ground arith in
    let inside : ltb (length bytes) 0 ≡ false = ground arith in
    let found = consume-partial (length bytes) (dropped sa) bytes long (omega arith) cut begins in
    rw (none_ended, inside, found) refl

pub feed_payload-begun :
    (sa : SectionAssembler) (counter : ℕ) (bytes : List ℕ)
    → 3 ≤ length bytes
    → length bytes < total_length bytes
    → (byte_at bytes 0 == 0xff) ≡ false
    → feed_payload sa true counter (0 ∷ bytes)
      ≡ ([], record sa { last_counter = counter; buffer = bytes; expecting = true })
unfolding feed_payload
feed_payload-begun sa counter bytes long cut begins =
    elim (Bool-cases (sa.expecting && not (counter == (sa.last_counter + 1) % 16))) [
      | inl lost ↦ rw lost (
          start_sections-begun (record (dropped sa) { last_counter = counter }) bytes long cut
            begins)
      | inr kept ↦
          rw kept
            (start_sections-begun (record sa { last_counter = counter }) bytes long cut begins)
    ]

pub packetize-done : (fuel p counter : ℕ) → packetize_loop fuel p false [] counter ≡ ([], counter)
unfolding packetize_loop
packetize-done zero p counter = refl
packetize-done (suc fuel) p counter = refl

module _ (fuel : ℕ) (sa : SectionAssembler) (first : Bool) (bytes : List ℕ) (counter : ℕ) where
  abbrev pub first_packet : Packet
  first_packet = filled (header_of sa.pid first counter) bytes

  abbrev pub later_packets : List Packet
  later_packets =
      (packetize_loop fuel sa.pid false (drop (188 - length (header_of sa.pid first counter)) bytes)
        ((counter + 1) % 16)).0

  pub packetize-more :
      (first || ltb 0 (length bytes)) ≡ true
      → (packetize_loop (suc fuel) sa.pid first bytes counter).0 ≡ first_packet ∷ later_packets
  unfolding packetize_loop
  packetize-more more = rw (more, packetize_loop) refl

  -- Of the packets that are left, the first one and those after it.
  pub feed_each-more :
      (now : Assembled)
      → (first || ltb 0 (length bytes)) ≡ true
      → feed_all sa first_packet ≡ now
      → (feed_each sa (packetize_loop (suc fuel) sa.pid first bytes counter).0).0
        ≡ now.0 ++ (feed_each now.1 later_packets).0
  feed_each-more now more fed =
      ap (λ (ps : List Packet). (feed_each sa ps).0) (packetize-more more)
      ∙ ap (λ (now : Assembled). now.0 ++ (feed_each now.1 later_packets).0) fed

-- Nothing is left behind the last packet.
pub last_sent :
    (fuel p : ℕ) (sa : SectionAssembler) (bytes : List ℕ) (counter : ℕ) (found : List Section)
    → length bytes ≡ 0
    → found ++ (feed_each sa (packetize_loop fuel p false bytes counter).0).0 ≡ found
last_sent fuel p sa [] counter found over =
    ap (λ (r : List Packet × ℕ). found ++ (feed_each sa r.0).0) (packetize-done fuel p counter)
    ∙ append-nil found
last_sent fuel p sa (b ∷ bytes) counter found over = absurd (omega (arith, over))
