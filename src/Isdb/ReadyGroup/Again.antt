-- ===== src/Isdb/ReadyGroup/Again.antt =====
-- internal/isdb/schedule.go: a section that comes again leaves the group as it is, and is no progress.
use mahiron.Prelude.{
  every_below_intro, ℕ, ◌+◌, ◌-◌, ◌/◌, ◌%◌, ◌≤◌, ◌<◌, ◌≡◌, refl, sym, ap, subst, ◌∙◌, inl, inr,
  true, false, Option, none, some, ◌==◌, ==_refl, Bool-cases, ==→eq, arith,
}
use mahiron.Prelude.Maps.{put, put_self, put_same}
use mahiron.Isdb.{SectionHeader}
use mahiron.Isdb.ReadyGroup.{
  SegmentBits, ReadyFlag, ReadyGroup, ignore_past, ignore_beyond, ignore_short, flag_section, mark,
  current_jst_segment, change_last, change_version, observe_group, same_last,
}
use mahiron.Isdb.ReadyGroup.Marks.{in_range, asked, fill_bits_done, fill_segments_done, mark_lem}

-- Every bit that the section asks for is set.
record Marked (flags_id : ℕ) (f : ReadyFlag) (h : SectionHeader) (now : ℕ) : Type 0 where
  ignored : (seg k : ℕ) → k < 8 → asked flags_id h now seg k ≡ true → f.ignore seg k ≡ true
  flagged : f.flag (h.section_number / 8) (h.section_number % 8) ≡ true

mark-Marked :
    (flags_id : ℕ) (f : ReadyFlag) (h : SectionHeader) (now : ℕ)
    → Marked flags_id (mark flags_id f h now).0 h now
mark-Marked flags_id f h now = record {
  ignored = λ seg k lt a. ground (arith, mark_lem flags_id f h now seg k lt);
  flagged = ground (
    arith,
    mark_lem flags_id f h now (h.section_number / 8) (h.section_number % 8) (omega arith),
  );
}

asked_beyond :
    (flags_id : ℕ) (h : SectionHeader) (now seg k : ℕ)
    → in_range (h.last_section_number / 8 + 1) (31 - h.last_section_number / 8) seg ≡ true
    → asked flags_id h now seg k ≡ true
asked_beyond flags_id h now seg k e = ground arith

in_range-true : (i n k : ℕ) → i ≤ k → k < i + n → in_range i n k ≡ true
in_range-true i n k lo hi = ground arith

module _ (flags_id : ℕ) (f : ReadyFlag) (h : SectionHeader) (now : ℕ)
    (d : Marked flags_id f h now) where
  ignore_past_done : ignore_past flags_id f.ignore now ≡ (f.ignore, false)
  unfolding ignore_past
  ignore_past_done = elim (Bool-cases (flags_id == 0)) [
    | inl first ↦ rw first (
        fill_segments_done (current_jst_segment now) 0 f.ignore false
          λ seg lo hi. every_below_intro 8 (f.ignore seg) λ k lt. d.ignored seg k lt (ground arith))
    | inr other ↦ rw other
  ]

  ignore_beyond_done : ignore_beyond f.ignore h false ≡ (f.ignore, false)
  unfolding ignore_beyond
  ignore_beyond_done = fill_segments_done _ _ f.ignore false λ seg lo hi.
      every_below_intro 8 (f.ignore seg)
        λ k lt. d.ignored seg k lt (asked_beyond flags_id h now seg k (in_range-true _ _ seg lo hi))

  ignore_short_done : ignore_short f.ignore h false ≡ (f.ignore, false)
  unfolding ignore_short
  ignore_short_done =
      let last = h.segment_last_section % 8 in
      let done =
        fill_bits_done (7 - last) (last + 1) (f.ignore (h.section_number / 8)) false
          λ k lo hi. d.ignored (h.section_number / 8) k (omega arith) (ground arith) in
      rw done
        (ap (λ (m : SegmentBits). (m, false)) (put_same f.ignore (h.section_number / 8) _ refl))

  flag_section_done : flag_section f.flag h false ≡ (f.flag, false)
  unfolding flag_section
  flag_section_done = rw d.flagged

  mark_done : mark flags_id f h now ≡ (f, false)
  unfolding mark
  mark_done = rw (ignore_past_done, ignore_beyond_done, ignore_short_done, flag_section_done)

change_last_done :
    (g : ReadyGroup) (last : ℕ) → g.last_flags_id ≡ some last → change_last g last ≡ (g, 0, false)
unfolding change_last
change_last_done g last e = rw (e, ==_refl last)

same_last→eq : (o : Option ℕ) (last : ℕ) → same_last o last ≡ true → o ≡ some last
same_last→eq none last e = cc
same_last→eq (some l) last e = ap some (==→eq l last e)

change_last-known : (g : ReadyGroup) (last : ℕ) → (change_last g last).0.last_flags_id ≡ some last
unfolding change_last
change_last-known g last = elim (Bool-cases (same_last g.last_flags_id last)) [
  | inl same ↦ rw (same, change_last) (same_last→eq g.last_flags_id last same)
  | inr other ↦ rw (other, change_last)
]

change_version_done :
    (f : ReadyFlag) (v : ℕ) → f.observed ≡ true → f.version ≡ v → change_version f v ≡ (f, 0, false)
unfolding change_version
change_version_done f v on e = rw (on, e, ==_refl v)

pub change_version-known :
    (f : ReadyFlag) (v : ℕ)
    → ((change_version f v).0.observed ≡ true) × ((change_version f v).0.version ≡ v)
unfolding change_version
change_version-known f v = ground arith

mark_keeps :
    (flags_id : ℕ) (f : ReadyFlag) (h : SectionHeader) (now : ℕ)
    → ((mark flags_id f h now).0.observed ≡ f.observed)
      × ((mark flags_id f h now).0.version ≡ f.version)
unfolding mark
mark_keeps flags_id f h now = (refl, refl)

observe_group_done :
    (g : ReadyGroup) (flags_id last : ℕ) (h : SectionHeader) (now : ℕ)
    → g.last_flags_id ≡ some last
    → (g.flags flags_id).observed ≡ true
    → (g.flags flags_id).version ≡ h.version
    → Marked flags_id (g.flags flags_id) h now
    → observe_group g flags_id last h now ≡ (g, 0, false)
unfolding observe_group
observe_group_done g flags_id last h now e on v d =
    rw
      (
        change_last_done g last e,
        change_version_done (g.flags flags_id) h.version on v,
        mark_done flags_id (g.flags flags_id) h now d,
      )
      (ap (λ (fs : ℕ → ReadyFlag). (record g { flags = fs }, 0, false))
        (put_same g.flags flags_id (g.flags flags_id) refl))

-- What `observe_group` leaves is not changed by the same section at the same time, which counts no
-- reset and reports no change.
pub observe_group_again :
    (g : ReadyGroup) (flags_id last : ℕ) (h : SectionHeader) (now : ℕ)
    → let g' = (observe_group g flags_id last h now).0 in
      observe_group g' flags_id last h now ≡ (g', 0, false)
unfolding observe_group
observe_group_again g flags_id last h now =
    let g₁ = (change_last g last).0 in
    let f₁ = (change_version (g₁.flags flags_id) h.version).0 in
    let f₂ = (mark flags_id f₁ h now).0 in
    let here = put_self g₁.flags flags_id f₂ in
    let known = change_version-known (g₁.flags flags_id) h.version in
    observe_group_done (record g₁ { flags = put g₁.flags flags_id f₂ }) flags_id last h now
      (change_last-known g last)
      (ap (λ (f : ReadyFlag). f.observed) here ∙ (mark_keeps flags_id f₁ h now).0 ∙ known.0)
      (ap (λ (f : ReadyFlag). f.version) here ∙ (mark_keeps flags_id f₁ h now).1 ∙ known.1)
      (subst (λ f. Marked flags_id f h now) (sym here) (mark-Marked flags_id f₁ h now))
