-- ===== src/Ts/Packetize/Reassembled.antt =====
-- ts/demux.go and ts/section.go: a section cut into packets comes out whole.
use mahiron.Prelude.{
  ℕ, zero, suc, ◌+◌, ◌-◌, ◌%◌, ◌≤◌, ◌<◌, ◌≡◌, refl, sym, ap, ◌∙◌, true, false, ◌||◌, List, [], ◌∷◌,
  ◌++◌, append_assoc, ltb, ◌==◌, inl, inr, length, take, drop, replicate, length-append,
  length-take, length-drop, take-drop, drop_all, get_or-take, arith,
}
use mahiron.Ts.{byte_at}
use mahiron.Ts.Sections.{Section, total_length, SectionAssembler, Assembled, feed_payload, feed_all}
use mahiron.Ts.Sections.Whole.{IsWhole}
use mahiron.Ts.Sections.Joined.{feed_payload-joined, total_length-append}
use mahiron.Ts.Packetize.Ends.{complete-ended, complete-partial}
use mahiron.Ts.Packetize.{packetize_loop, packetize_section}
use mahiron.Ts.Packetize.Bodies.{
  body_first, body_later, padded, padded_short, padded_long, feed_all-filled,
}
use mahiron.Ts.Packetize.Steps.{
  feed_each, le_or_lt, stuffing_lem, feed_payload-goes_on, feed_payload-begun, last_sent,
  feed_each-more, first_packet,
}

-- The packet with the end of a section.
rest_sent-short :
    (fuel : ℕ) (sa : SectionAssembler) (s : Section) (rest : List ℕ) (counter : ℕ)
    → IsWhole s
    → sa.pid < 0x2000
    → sa.expecting ≡ true
    → counter % 16 ≡ (sa.last_counter + 1) % 16
    → sa.buffer ++ rest ≡ s
    → 3 ≤ length sa.buffer
    → 1 ≤ length rest
    → length rest ≤ 184
    → (feed_each sa (packetize_loop (suc fuel) sa.pid false rest counter).0).0 ≡ s ∷ []
rest_sent-short fuel sa s rest counter whole small waits next parts long more fits =
    let on : (false || ltb 0 (length rest)) ≡ true = ground (arith, more) in
    let read =
      feed_all-filled sa false rest counter small
      ∙ ap (λ b. feed_payload sa false (counter % 16) b) (body_later rest) in
    let pad : List ℕ = replicate (184 - length rest) 0xff in
    let all : sa.buffer ++ padded 184 rest ≡ s ++ pad =
      ap (λ l. sa.buffer ++ l) (padded_short 184 rest fits)
      ∙ sym (append_assoc sa.buffer rest pad)
      ∙ ap (λ l. l ++ pad) parts in
    let now = feed_all sa (first_packet fuel sa false rest counter) in
    let found : now.0 ≡ s ∷ [] =
      ap (λ (r : Assembled). r.0)
        (read ∙ feed_payload-goes_on sa (counter % 16) (padded 184 rest) waits next)
      ∙ complete-ended (length (sa.buffer ++ padded 184 rest))
          (record sa { last_counter = counter % 16; buffer = sa.buffer ++ padded 184 rest }) s
          (184 - length rest) whole (omega (arith, length-append sa.buffer (padded 184 rest), long))
          (omega (arith, fits)) all in
    feed_each-more fuel sa false rest counter now on refl
    ∙ last_sent fuel sa.pid now.1 (drop 184 rest) ((counter + 1) % 16) now.0
        (ap length (drop_all 184 rest fits))
    ∙ found

rest_sent :
    (fuel : ℕ) (sa : SectionAssembler) (s : Section) (rest : List ℕ) (counter : ℕ)
    → IsWhole s
    → sa.pid < 0x2000
    → sa.expecting ≡ true
    → counter % 16 ≡ (sa.last_counter + 1) % 16
    → sa.buffer ++ rest ≡ s
    → 3 ≤ length sa.buffer
    → 1 ≤ length rest
    → length rest ≤ fuel
    → (feed_each sa (packetize_loop fuel sa.pid false rest counter).0).0 ≡ s ∷ []
rest_sent zero sa s rest counter whole small waits next parts long more enough =
    absurd (omega (arith, more, enough))
rest_sent (suc fuel) sa s rest counter whole small waits next parts long more enough =
    let on : (false || ltb 0 (length rest)) ≡ true = ground (arith, more) in
    let read =
      feed_all-filled sa false rest counter small
      ∙ ap (λ b. feed_payload sa false (counter % 16) b) (body_later rest) in
    elim (le_or_lt (length rest) 184) [
      | inl fits ↦
          rest_sent-short fuel sa s rest counter whole small waits next parts long more fits
      | inr over ↦
          let sa' : SectionAssembler = record sa {
            last_counter = counter % 16;
            buffer = sa.buffer ++ take 184 rest;
            expecting = true;
          } in
          let left = drop 184 rest in
          let parts' : sa'.buffer ++ left ≡ s =
            append_assoc sa.buffer (take 184 rest) left
            ∙ ap (λ l. sa.buffer ++ l) (take-drop 184 rest)
            ∙ parts in
          let size = length-append sa.buffer (take 184 rest) in
          let part = length-append sa'.buffer left in
          let total : total_length sa'.buffer ≡ length s =
            sym (total_length-append sa'.buffer left (omega (arith, size, long)))
            ∙ ap total_length parts'
            ∙ sym whole.1 in
          let cut : length sa'.buffer < total_length sa'.buffer =
            omega (arith, total, ap length parts', part, length-drop 184 rest, over) in
          let fed : feed_all sa (first_packet fuel sa false rest counter) ≡ ([], sa') =
            read
            ∙ ap (λ b. feed_payload sa false (counter % 16) b)
                (padded_long 184 rest (omega (arith, over)))
            ∙ feed_payload-goes_on sa (counter % 16) (take 184 rest) waits next
            ∙ complete-partial (length sa'.buffer)
                (record sa { last_counter = counter % 16; buffer = sa.buffer ++ take 184 rest })
                (omega (arith, size, long)) (omega (arith, size, long)) cut in
          feed_each-more fuel sa false rest counter ([], sa') on fed
          ∙ rest_sent fuel sa' s left ((counter + 1) % 16) whole small refl (omega arith) parts'
              (omega (arith, size, long)) (omega (arith, over, length-drop 184 rest))
              (omega (arith, length-drop 184 rest, enough))
    ]

first_sent :
    (fuel : ℕ) (sa : SectionAssembler) (s : Section) (counter : ℕ)
    → IsWhole s
    → (byte_at s 0 == 0xff) ≡ false
    → sa.pid < 0x2000
    → length s ≤ fuel
    → (feed_each sa (packetize_loop (suc fuel) sa.pid true s counter).0).0 ≡ s ∷ []
first_sent fuel sa s counter whole begins small enough =
    let read =
      feed_all-filled sa true s counter small
      ∙ ap (λ b. feed_payload sa true (counter % 16) b) (body_first s) in
    elim (le_or_lt (length s) 183) [
      | inl fits ↦
          let pad : List ℕ = replicate (183 - length s) 0xff in
          let fed =
            read
            ∙ ap (λ b. feed_payload sa true (counter % 16) (0 ∷ b)) (padded_short 183 s fits)
            ∙ feed_payload-joined sa (counter % 16) (s ∷ []) pad ((whole, begins), tt)
                (stuffing_lem (183 - length s)) in
          feed_each-more fuel sa true s counter _ refl fed
          ∙ last_sent fuel sa.pid _ (drop 183 s) ((counter + 1) % 16) (s ∷ [])
              (ap length (drop_all 183 s fits))
      | inr over ↦
          let chunk = take 183 s in
          let left = drop 183 s in
          let sa' : SectionAssembler = record sa {
            last_counter = counter % 16;
            buffer = chunk;
            expecting = true;
          } in
          let parts = take-drop 183 s in
          let size = length-take 183 s (omega (arith, over)) in
          let total : total_length chunk ≡ length s =
            sym (total_length-append chunk left (omega (arith, size)))
            ∙ ap total_length parts
            ∙ sym whole.1 in
          let begins' : (byte_at chunk 0 == 0xff) ≡ false =
            ap (λ b. b == 0xff) (get_or-take 183 s 0 0 (omega arith)) ∙ begins in
          let fed : feed_all sa (first_packet fuel sa true s counter) ≡ ([], sa') =
            read
            ∙ ap (λ b. feed_payload sa true (counter % 16) (0 ∷ b))
                (padded_long 183 s (omega (arith, over)))
            ∙ feed_payload-begun sa (counter % 16) chunk (omega (arith, size))
                (omega (arith, size, total, over)) begins' in
          feed_each-more fuel sa true s counter ([], sa') refl fed
          ∙ rest_sent fuel sa' s left ((counter + 1) % 16) whole small refl (omega arith) parts
              (omega (arith, size)) (omega (arith, over, length-drop 183 s))
              (omega (arith, length-drop 183 s, enough))
    ]

-- A whole section that does not begin like stuffing, cut into packets of any PID and fed to the assembler
-- of that PID in any state: just this section comes out.
pub feed_each-packetize_section :
    (sa : SectionAssembler) (s : Section) (counter : ℕ)
    → IsWhole s
    → (byte_at s 0 == 0xff) ≡ false
    → sa.pid < 0x2000
    → (feed_each sa (packetize_section sa.pid s counter).0).0 ≡ s ∷ []
unfolding packetize_section
feed_each-packetize_section sa s counter whole begins small =
    let rounds : length s + 1 ≡ suc (length s) = omega arith in
    ap (λ (n : ℕ). (feed_each sa (packetize_loop n sa.pid true s counter).0).0) rounds
    ∙ first_sent (length s) sa s counter whole begins small (omega arith)
