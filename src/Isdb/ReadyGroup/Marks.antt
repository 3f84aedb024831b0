-- ===== src/Isdb/ReadyGroup/Marks.antt =====
-- What `observeReady` of internal/isdb/schedule.go marks, bit by bit, and that a section that comes
-- again marks nothing.
use mahiron.Prelude.{
  every_below-at, ℕ, zero, suc, ◌+◌, ◌-◌, ◌/◌, ◌%◌, ◌≤◌, ◌<◌, ◌≡◌, refl, Bool, true, false, not,
  ◌&&◌, ◌||◌, ltb, leb, ◌==◌, if◌then◌else◌, arith,
}
use mahiron.Prelude.Maps.{put}
use mahiron.Isdb.{SectionHeader}
use mahiron.Isdb.ReadyGroup.{
  SegmentBits, ReadyFlag, full, fill_segments, fill_bits, ignore_past, ignore_beyond, ignore_short,
  flag_section, mark, current_jst_segment,
}

abbrev pub in_range : ℕ → ℕ → ℕ → Bool
in_range i n k = leb i k && ltb k (i + n)

pub fill_bits_lem :
    (n i : ℕ) (byte : ℕ → Bool) (c : Bool) (k : ℕ)
    → (fill_bits n i byte c).0 k ≡ (byte k || in_range i n k)
unfolding fill_bits
fill_bits_lem zero i byte c k = ground arith
fill_bits_lem (suc n) i byte c k = ground (
  arith,
  fill_bits_lem n (i + 1) (if byte i then byte else put byte i true) (c || not (byte i)) k,
)

pub full_bit : (byte : ℕ → Bool) (k : ℕ) → full byte ≡ true → k < 8 → byte k ≡ true
full_bit byte k h lt = every_below-at 8 byte k h lt

pub fill_segments_lem :
    (n i : ℕ) (m : SegmentBits) (c : Bool) (seg k : ℕ)
    → k < 8
    → (fill_segments n i m c).0 seg k ≡ (m seg k || in_range i n seg)
unfolding fill_segments
fill_segments_lem zero i m c seg k lt = ground arith
fill_segments_lem (suc n) i m c seg k lt = ground (
  arith,
  full_bit (m i) k,
  fill_segments_lem n (i + 1) (if full (m i) then m else put m i (λ _. true))
      (c || not (full (m i))) seg k lt,
)

or_false : (c : Bool) → (c || false) ≡ c
or_false true = refl
or_false false = refl

-- A loop that finds everything done does nothing.
pub fill_bits_done :
    (n i : ℕ) (byte : ℕ → Bool) (c : Bool)
    → ((k : ℕ) → i ≤ k → k < i + n → byte k ≡ true)
    → fill_bits n i byte c ≡ (byte, c)
unfolding fill_bits
fill_bits_done zero i byte c all = refl
fill_bits_done (suc n) i byte c all =
    rw (all i (omega arith) (omega arith), or_false c)
      (fill_bits_done n (i + 1) byte c λ k lo hi. all k (omega arith) (omega arith))

pub fill_segments_done :
    (n i : ℕ) (m : SegmentBits) (c : Bool)
    → ((k : ℕ) → i ≤ k → k < i + n → full (m k) ≡ true)
    → fill_segments n i m c ≡ (m, c)
unfolding fill_segments
fill_segments_done zero i m c all = refl
fill_segments_done (suc n) i m c all =
    rw (all i (omega arith) (omega arith), or_false c)
      (fill_segments_done n (i + 1) m c λ k lo hi. all k (omega arith) (omega arith))

-- The ignored bits that a section asks for: past segments of the first table, segments behind the
-- last section, and the sections behind the last one of the segment.
abbrev pub asked : ℕ → SectionHeader → ℕ → ℕ → ℕ → Bool
asked flags_id h now seg k =
    (flags_id == 0 && in_range 0 (current_jst_segment now) seg)
    || in_range (h.last_section_number / 8 + 1) (31 - h.last_section_number / 8) seg
    || (h.section_number / 8 == seg
        && in_range (h.segment_last_section % 8 + 1) (7 - h.segment_last_section % 8) k)

ignore_past_lem :
    (flags_id : ℕ) (m : SegmentBits) (now seg k : ℕ)
    → k < 8
    → (ignore_past flags_id m now).0 seg k
      ≡ (m seg k || (flags_id == 0 && in_range 0 (current_jst_segment now) seg))
unfolding ignore_past
ignore_past_lem flags_id m now seg k lt =
    ground (arith, fill_segments_lem (current_jst_segment now) 0 m false seg k lt)

ignore_beyond_lem :
    (m : SegmentBits) (h : SectionHeader) (c : Bool) (seg k : ℕ)
    → k < 8
    → (ignore_beyond m h c).0 seg k
      ≡ (m seg k || in_range (h.last_section_number / 8 + 1) (31 - h.last_section_number / 8) seg)
unfolding ignore_beyond
ignore_beyond_lem m h c seg k lt = fill_segments_lem _ _ m c seg k lt

ignore_short_lem :
    (m : SegmentBits) (h : SectionHeader) (c : Bool) (seg k : ℕ)
    → (ignore_short m h c).0 seg k ≡ (
        m seg k
        || (h.section_number / 8 == seg
            && in_range (h.segment_last_section % 8 + 1) (7 - h.segment_last_section % 8) k))
unfolding ignore_short
ignore_short_lem m h c seg k = ground (
  arith,
  fill_bits_lem (7 - h.segment_last_section % 8) (h.segment_last_section % 8 + 1)
      (m (h.section_number / 8)) c k,
)

flag_section_lem :
    (m : SegmentBits) (h : SectionHeader) (c : Bool) (seg k : ℕ)
    → (flag_section m h c).0 seg k
      ≡ (m seg k || (h.section_number / 8 == seg && h.section_number % 8 == k))
unfolding flag_section
flag_section_lem m h c seg k = ground arith

-- The marks, bit by bit: a bit is ignored or flagged if it was, or if the section asks for it.
pub mark_lem :
    (flags_id : ℕ) (f : ReadyFlag) (h : SectionHeader) (now seg k : ℕ)
    → k < 8
    → ((mark flags_id f h now).0.ignore seg k ≡ (f.ignore seg k || asked flags_id h now seg k))
      × ((mark flags_id f h now).0.flag seg k
          ≡ (f.flag seg k || (h.section_number / 8 == seg && h.section_number % 8 == k)))
unfolding mark
mark_lem flags_id f h now seg k lt =
    let past = ignore_past flags_id f.ignore now in
    let beyond = ignore_beyond past.0 h past.1 in
    let short = ignore_short beyond.0 h beyond.1 in
    (
      ground (
        arith,
        ignore_past_lem flags_id f.ignore now seg k lt,
        ignore_beyond_lem past.0 h past.1 seg k lt,
        ignore_short_lem beyond.0 h beyond.1 seg k,
      ),
      flag_section_lem f.flag h short.1 seg k,
    )
