-- ===== src/Isdb/ReadyGroup/Bases.antt =====
-- The numbering of schedule tables: `scheduleBaseOf` of internal/isdb/schedule.go and the EIT
-- classes of internal/isdb/isdb.go.
use mahiron.Prelude.{ℕ, ◌+◌, ◌<◌, ◌≡◌, Bool, Option, none, some, if◌then◌else◌, arith}
use mahiron.Isdb.{
  EitKind, eit_schedule_basic, eit_schedule_extended, eit_other, eit_present_following,
  classify_ts_eit_table_id, classify_mmt_eit_table_id,
}
use mahiron.Isdb.ReadyGroup.{
  ScheduleSystem, schedule_ts, schedule_mmt, ScheduleBase, schedule_base_of,
}

-- The eight tables from `base` on are one group.
abbrev pub IsBase : ScheduleSystem → ℕ → Bool → Type 0
IsBase system base basic =
    (i : ℕ)
    → i < 8
    → schedule_base_of system (base + i) ≡ some (record { base = base; index = i; basic = basic })

pub schedule_base_of-IsBase :
    (system : ScheduleSystem) (id : ℕ) (b : ScheduleBase)
    → schedule_base_of system id ≡ some b
    → IsBase system b.base b.basic × (b.index < 8) × (id ≡ b.base + b.index)
unfolding schedule_base_of
schedule_base_of-IsBase schedule_ts id b e = (λ i lt. ground arith, ground arith, ground arith)
schedule_base_of-IsBase schedule_mmt id b e = (λ i lt. ground arith, ground arith, ground arith)

-- The class of a table as the schedule groups see it.
abbrev pub schedule_kind : Option ScheduleBase → EitKind
schedule_kind none = eit_other
schedule_kind (some b) = if b.basic then eit_schedule_basic else eit_schedule_extended

-- The present/following tables are no schedule tables.
abbrev pub but_present_following : EitKind → EitKind
but_present_following eit_present_following = eit_other
but_present_following kind = kind

-- For every table ID of both systems the groups and the two classifiers agree on whether it is a
-- schedule table, and on whether it is a basic or an extended one.
pub schedule_base_of_kinds :
    (id : ℕ)
    → (schedule_kind (schedule_base_of schedule_ts id)
        ≡ but_present_following (classify_ts_eit_table_id id))
      × (schedule_kind (schedule_base_of schedule_mmt id)
          ≡ but_present_following (classify_mmt_eit_table_id id))
unfolding schedule_base_of classify_ts_eit_table_id classify_mmt_eit_table_id
schedule_base_of_kinds id = (ground arith, ground arith)
