-- ===== src/Tests/Groups.antt =====
-- internal/isdb/schedule.go, run.
use mahiron.Prelude.{
  every_below, ℕ, ◌+◌, ◌*◌, ◌/◌, ◌%◌, ◌<◌, ◌≡◌, ◌↔◌, refl, true, false, ◌||◌, ◌&&◌, List, [], ◌∷◌,
  ◌==◌, arith,
}
use mahiron.Isdb.{SectionHeader, classify_ts_eit_table_id, classify_mmt_eit_table_id}
use mahiron.Isdb.ReadyGroup.{
  schedule_ts, schedule_mmt, schedule_base_of, ReadyGroup, new_group, observe_group,
  last_flags_id_of, change_last, flag_section, change_version, ignore_short, ignore_beyond,
  ignore_past, mark, ready, missing_sections,
}
use mahiron.Isdb.ReadyGroup.Marks.{asked, mark_lem}
use mahiron.Isdb.ReadyGroup.Bases.{
  IsBase, schedule_kind, but_present_following, schedule_base_of-IsBase, schedule_base_of_kinds,
}
use mahiron.Isdb.ReadyGroup.Missing.{ready_iff_missing}
use mahiron.Isdb.Schedule.{
  ScheduleTracker, new_schedule_tracker, observe, observe_known, observe_ready, observe_all,
  Observation, table_or_new,
}
use mahiron.Isdb.Schedule.Stored.{HasSection}
use mahiron.Isdb.Schedule.Progress.{observe_again}
use mahiron.Isdb.Schedule.Coverage.{ready_sections_stored}

-- The only section of the only table of a group.
abbrev header : SectionHeader
header = record {
  table_id_extension = 1024;
  version = 3;
  section_number = 0;
  last_section_number = 0;
  current_next = true;
  last_table_id = 0x50;
  segment_last_section = 0;
}

-- Midnight in Japan.
abbrev midnight : ℕ
midnight = 54000000000000

abbrev group : ReadyGroup
group = (observe_group (new_group 0x50 true) 0 0 header midnight).0

schedule_base_of-IsBase_example : IsBase schedule_ts 0x60 true × (5 < 8) × (0x65 ≡ 0x60 + 5)
unfolding schedule_base_of
schedule_base_of-IsBase_example =
    schedule_base_of-IsBase schedule_ts 0x65 (record { base = 0x60; index = 5; basic = true }) refl

schedule_base_of_kinds_example :
    (schedule_kind (schedule_base_of schedule_ts 0x58)
      ≡ but_present_following (classify_ts_eit_table_id 0x58))
    × (schedule_kind (schedule_base_of schedule_mmt 0x58)
        ≡ but_present_following (classify_mmt_eit_table_id 0x58))
schedule_base_of_kinds_example = schedule_base_of_kinds 0x58

mark_lem_example :
    let f = (new_group 0x50 true).flags 0 in
    ((mark 0 f header midnight).0.ignore 0 3 ≡ (f.ignore 0 3 || asked 0 header midnight 0 3))
    × ((mark 0 f header midnight).0.flag 0 3 ≡ (f.flag 0 3 || (0 / 8 == 0 && 0 % 8 == 3)))
mark_lem_example = mark_lem 0 ((new_group 0x50 true).flags 0) header midnight 0 3 (omega arith)

ready_iff_missing_example : (ready group ≡ true) ↔ ((i : ℕ) → i < 8 → missing_sections group i ≡ [])
ready_iff_missing_example = ready_iff_missing group

abbrev nothing_seen : ScheduleTracker ℕ
nothing_seen = new_schedule_tracker schedule_ts

observe_again_example :
    observe (observe nothing_seen 0x50 header 7 midnight).0 0x50 header 8 midnight
    ≡ ((observe nothing_seen 0x50 header 7 midnight).0, false)
observe_again_example = observe_again nothing_seen 0x50 header 7 8 midnight

abbrev one_section : List (Observation ℕ)
one_section = (0x50, header, 7, midnight) ∷ []

group-is_ready : ready group ≡ true
unfolding ready observe_group new_group change_last mark flag_section change_version ignore_short
    ignore_beyond ignore_past
group-is_ready = refl

ready_sections_stored_example :
    HasSection
      (table_or_new ((observe_all nothing_seen one_section).tables (0x50 + 0)))
      (0 * 8 + 0)
      (group.flags 0).version
unfolding observe_all observe observe_known observe_ready observe_group new_schedule_tracker
    new_group schedule_base_of last_flags_id_of mark ignore_short ignore_beyond ignore_past
    change_version change_last every_below
ready_sections_stored_example =
    ready_sections_stored schedule_ts one_section 0x50 group 0 0 0 refl group-is_ready (omega arith)
      (omega arith) (omega arith) refl
