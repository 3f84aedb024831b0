-- ===== src/Isdb/ReadyGroup.antt =====
-- internal/isdb/schedule.go: the schedule table groups, and which sections of a group have arrived.
use mahiron.Prelude.{
  ℕ, zero, suc, ◌+◌, ◌-◌, ◌*◌, ◌/◌, ◌%◌, Bool, true, false, not, ◌&&◌, ◌||◌, Option, none, some,
  ltb, leb, ◌==◌, List, [], ◌∷◌, ◌++◌, if◌then◌else◌, every_below,
}
use mahiron.Prelude.Maps.{put}
use mahiron.Isdb.{SectionHeader, within}
pub mod Marks
pub mod Again
pub mod Bases
pub mod Missing

pub data ScheduleSystem : Type 0 where
  schedule_ts schedule_mmt : ScheduleSystem

-- The first three results of `scheduleBaseOf`; `ok` is false for `none`.
pub record ScheduleBase : Type 0 where
  pub base : ℕ
  pub index : ℕ
  pub basic : Bool

abbrev base_at : ℕ → Bool → ℕ → Option ScheduleBase
base_at base basic id = some (record { base = base; index = id - base; basic = basic })

unfoldable pub schedule_base_of : ScheduleSystem → ℕ → Option ScheduleBase
schedule_base_of schedule_mmt id =
    if within 0x8C 0x93 id
    then base_at 0x8C true id
    else if within 0x94 0x9B id
    then base_at 0x94 false id
    else none
schedule_base_of schedule_ts id =
    if within 0x50 0x57 id
    then base_at 0x50 true id
    else if within 0x58 0x5F id
    then base_at 0x58 false id
    else if within 0x60 0x67 id
    then base_at 0x60 true id
    else if within 0x68 0x6F id
    then base_at 0x68 false id
    else none

-- A `[32]byte`, by segment and bit. Segments from 32 on and bits from 8 on are never read.
abbrev pub SegmentBits : Type 0
SegmentBits = ℕ → ℕ → Bool

pub record ReadyFlag : Type 0 where
  pub observed : Bool
  pub version : ℕ
  pub flag : SegmentBits
  pub ignore : SegmentBits

-- `last_flags_id` is -1 for `none`; `flags` is an array of 8.
pub record ReadyGroup : Type 0 where
  pub base : ℕ
  pub basic : Bool
  pub last_flags_id : Option ℕ
  pub flags : ℕ → ReadyFlag

unfoldable pub reset_flag : Bool → ReadyFlag
reset_flag required = record {
  observed = false;
  version = 0;
  flag = λ _ _. false;
  ignore = λ _ _. not required;
}

-- The group that `observeReady` makes for a base that it meets first: all is ignored.
unfoldable pub new_group : ℕ → Bool → ReadyGroup
new_group base basic = record {
  base = base;
  basic = basic;
  last_flags_id = none;
  flags = λ _. record { observed = false; version = 0; flag = λ _ _. false; ignore = λ _ _. true };
}

-- `i > group.lastFlagsID`
abbrev pub past_last : Option ℕ → ℕ → Bool
past_last none i = true
past_last (some l) i = ltb l i

abbrev pub same_last : Option ℕ → ℕ → Bool
same_last none l = false
same_last (some k) l = k == l

abbrev known_last : Option ℕ → ℕ
known_last none = 0
known_last (some _) = 1

-- The last table ID has changed: the tables past the old or the new one start over. The results are
-- the group, the count of resets and `changed`.
unfoldable pub change_last : ReadyGroup → ℕ → ReadyGroup × ℕ × Bool
unfolding reset_flag
change_last g last = if same_last g.last_flags_id last then (g, 0, false) else (
  record g {
    last_flags_id = some last;
    flags = λ i.
        if ltb last i || past_last g.last_flags_id i then reset_flag (leb i last) else g.flags i;
  },
  known_last g.last_flags_id,
  true,
)

-- Another version of the table starts it over, and the version is noted.
unfoldable pub change_version : ReadyFlag → ℕ → ReadyFlag × ℕ × Bool
unfolding reset_flag
change_version f version =
    if f.observed && f.version == version
    then (f, 0, false)
    else if f.observed
    then (record (reset_flag true) { observed = true; version = version }, 1, true)
    else (record f { observed = true; version = version }, 0, true)

unfoldable pub current_jst_segment : ℕ → ℕ
current_jst_segment now = (now / 1000000 + 32400000) / 10800000 % 8

-- `x == 0xff`
abbrev pub full : (ℕ → Bool) → Bool
full byte = every_below 8 byte

-- `n` rounds of a loop over segments from `i` on that ignores them whole.
unfoldable pub fill_segments : ℕ → ℕ → SegmentBits → Bool → SegmentBits × Bool
fill_segments zero i m changed = (m, changed)
fill_segments (suc n) i m changed =
    fill_segments n (i + 1) (if full (m i) then m else put m i (λ _. true))
      (changed || not (full (m i)))

-- `n` rounds of the loop over the bits of one segment from `i` on.
unfoldable pub fill_bits : ℕ → ℕ → (ℕ → Bool) → Bool → (ℕ → Bool) × Bool
fill_bits zero i byte changed = (byte, changed)
fill_bits (suc n) i byte changed =
    fill_bits n (i + 1) (if byte i then byte else put byte i true) (changed || not (byte i))

unfoldable pub ignore_past : ℕ → SegmentBits → ℕ → SegmentBits × Bool
unfolding fill_segments current_jst_segment
ignore_past flags_id m now =
    if flags_id == 0 then fill_segments (current_jst_segment now) 0 m false else (m, false)

unfoldable pub ignore_beyond : SegmentBits → SectionHeader → Bool → SegmentBits × Bool
unfolding fill_segments
ignore_beyond m h changed =
    fill_segments (31 - h.last_section_number / 8) (h.last_section_number / 8 + 1) m changed

unfoldable pub ignore_short : SegmentBits → SectionHeader → Bool → SegmentBits × Bool
unfolding fill_bits
ignore_short m h changed =
    let seg = h.section_number / 8 in
    let last = h.segment_last_section % 8 in
    let (byte, changed') = fill_bits (7 - last) (last + 1) (m seg) changed in
    (put m seg byte, changed')

unfoldable pub flag_section : SegmentBits → SectionHeader → Bool → SegmentBits × Bool
flag_section m h changed =
    let seg = h.section_number / 8 in
    let bit = h.section_number % 8 in
    if m seg bit then (m, changed) else (put m seg (put (m seg) bit true), true)

-- The rest of `observeReady`: what is not sent is ignored, and the section is flagged.
unfoldable pub mark : ℕ → ReadyFlag → SectionHeader → ℕ → ReadyFlag × Bool
mark flags_id f h now =
    let (past, c₁) = ignore_past flags_id f.ignore now in
    let (beyond, c₂) = ignore_beyond past h c₁ in
    let (short, c₃) = ignore_short beyond h c₂ in
    let (flagged, c₄) = flag_section f.flag h c₃ in
    (record f { flag = flagged; ignore = short }, c₄)

-- The index of the last table in the group of `base`.
unfoldable pub last_flags_id_of : ScheduleSystem → ℕ → ℕ → ℕ
unfolding schedule_base_of
last_flags_id_of system base last_table_id = elim (schedule_base_of system last_table_id) [
  | none ↦ last_table_id % 8
  | some b ↦ if b.base == base then b.index else last_table_id % 8
]

abbrev pub group_or_new : Option ReadyGroup → ScheduleBase → ReadyGroup
group_or_new none b = new_group b.base b.basic
group_or_new (some g) b = g

-- The group of `observeReady`, on the group as it was: the new group, resets and `changed`.
unfoldable pub observe_group : ReadyGroup → ℕ → ℕ → SectionHeader → ℕ → ReadyGroup × ℕ × Bool
observe_group g flags_id last h now =
    let (g₁, r₁, c₁) = change_last g last in
    let (f₁, r₂, c₂) = change_version (g₁.flags flags_id) h.version in
    let (f₂, c₃) = mark flags_id f₁ h now in
    (record g₁ { flags = put g₁.flags flags_id f₂ }, r₁ + r₂, c₁ || c₂ || c₃)

-- The bits of one segment that are neither flagged nor ignored.
abbrev pub covered : ReadyFlag → ℕ → ℕ → Bool
covered f seg bit = f.flag seg bit || f.ignore seg bit

unfoldable pub ready : ReadyGroup → Bool
unfolding every_below
ready g = every_below 8 λ i. every_below 32 λ seg. full (covered (g.flags i) seg)

-- The two loops of `missingSections`, over `n` bits from `bit` and over `n` segments from `seg`.
unfoldable pub missing_bits : ReadyFlag → ℕ → ℕ → ℕ → List ℕ
missing_bits f seg zero bit = []
missing_bits f seg (suc n) bit =
    let later = missing_bits f seg n (bit + 1) in
    if covered f seg bit then later else (seg * 8 + bit) ∷ later

unfoldable pub missing_segments : ReadyFlag → ℕ → ℕ → List ℕ
unfolding missing_bits
missing_segments f zero seg = []
missing_segments f (suc n) seg = missing_bits f seg 8 0 ++ missing_segments f n (seg + 1)

unfoldable pub missing_sections : ReadyGroup → ℕ → List ℕ
unfolding missing_segments
missing_sections g flags_id = missing_segments (g.flags flags_id) 32 0
