-- ===== src/Isdb/Schedule.antt =====
-- internal/isdb/schedule.go: the EIT schedule reception state of one service.
use mahiron.Prelude.{
  ℕ, zero, suc, ◌+◌, ◌/◌, Bool, true, false, not, ◌&&◌, ◌||◌, Option, none, some, List, [], ◌∷◌,
  ◌++◌, map, leb, ◌==◌, if◌then◌else◌, every_below, some_below,
}
use mahiron.Prelude.Maps.{put}
use mahiron.Isdb.{SectionHeader}
use mahiron.Isdb.ReadyGroup.{
  ScheduleSystem, ScheduleBase, schedule_base_of, ReadyGroup, new_group, last_flags_id_of,
  group_or_new, observe_group, ready,
}
pub mod Progress
pub mod Stored
pub mod Step
pub mod Coverage

pub record ScheduleTable (P : Type 0) : Type 0 where
  pub version : ℕ
  pub has_version : Bool
  pub last_section : ℕ
  pub segment_last : ℕ → Option ℕ
  pub sections : ℕ → Bool
  pub payloads : ℕ → Option P
  pub versions : ℕ → Option ℕ

-- The maps by uint8 keys are functions. `latest` is a time in nanoseconds, `none` while it is zero.
pub record ScheduleTracker (P : Type 0) : Type 0 where
  pub system : ScheduleSystem
  pub tables : ℕ → Option (ScheduleTable P)
  pub groups : ℕ → Option ReadyGroup
  pub latest : Option ℕ
  pub resets : ℕ

unfoldable pub new_schedule_tracker : {P : Type 0} → ScheduleSystem → ScheduleTracker P
new_schedule_tracker system = record {
  system = system;
  tables = λ _. none;
  groups = λ _. none;
  latest = none;
  resets = 0;
}

-- `!existed || previous != header.Version`
abbrev pub version_changed : Option ℕ → ℕ → Bool
version_changed none v = true
version_changed (some previous) v = not (previous == v)

abbrev pub is_basic : Option ReadyGroup → Bool
is_basic none = false
is_basic (some g) = g.basic

abbrev pub is_extended : Option ReadyGroup → Bool
is_extended none = false
is_extended (some g) = not g.basic

abbrev pub is_ready : Option ReadyGroup → Bool
is_ready none = false
is_ready (some g) = ready g

-- A section as it comes in: its table ID, header, payload and time.
abbrev pub Observation : Type 0 → Type 0
Observation P = ℕ × SectionHeader × P × ℕ

module _ {P : Type 0} where
  -- `b` is what `scheduleBaseOf` says of the section's table ID.
  unfoldable pub observe_ready :
      ScheduleTracker P → ScheduleBase → SectionHeader → ℕ → ScheduleTracker P × Bool
  observe_ready t b h now =
      let last = last_flags_id_of t.system b.base h.last_table_id in
      let (g, r, changed) = observe_group (group_or_new (t.groups b.base) b) b.index last h now in
      (record t { groups = put t.groups b.base (some g); resets = t.resets + r }, changed)

  unfoldable pub new_table : ScheduleTable P
  new_table = record {
    version = 0;
    has_version = false;
    last_section = 0;
    segment_last = λ _. none;
    sections = λ _. false;
    payloads = λ _. none;
    versions = λ _. none;
  }

  abbrev pub table_or_new : Option (ScheduleTable P) → ScheduleTable P
  table_or_new none = new_table
  table_or_new (some table) = table

  unfoldable pub observe_table : ScheduleTable P → SectionHeader → P → ScheduleTable P × Bool
  observe_table table h payload =
      let n = h.section_number in
      let changed = version_changed (table.versions n) h.version in
      (
        record {
          version = h.version;
          has_version = true;
          last_section = h.last_section_number;
          segment_last = put table.segment_last (n / 8) (some h.segment_last_section);
          sections = put table.sections n true;
          payloads = if changed then put table.payloads n (some payload) else table.payloads;
          versions = put table.versions n (some h.version);
        },
        changed,
      )

  -- `ObserveLazy` behind its check of the table ID.
  unfoldable pub observe_known :
      ScheduleTracker P → ℕ → ScheduleBase → SectionHeader → P → ℕ → ScheduleTracker P × Bool
  observe_known t table_id b h payload now =
      let (table, changed) = observe_table (table_or_new (t.tables table_id)) h payload in
      let t₁ = record t { tables = put t.tables table_id (some table) } in
      let (t₂, ready_changed) = observe_ready t₁ b h now in
      let progress = changed || ready_changed in
      (record t₂ { latest = if progress then some now else t₂.latest }, progress)

  -- `Observe`. The payload is a value here, so that it does not matter when it is decoded.
  unfoldable pub observe : ScheduleTracker P → ℕ → SectionHeader → P → ℕ → ScheduleTracker P × Bool
  observe t table_id h payload now = elim (schedule_base_of t.system table_id) [
    | none ↦ (t, false)
    | some b ↦ observe_known t table_id b h payload now
  ]

  unfoldable pub observe_all : ScheduleTracker P → List (Observation P) → ScheduleTracker P
  observe_all t [] = t
  observe_all t ((id, h, p, now) ∷ os) = observe_all (observe t id h p now).0 os

  -- The loops over the map of groups, by its 256 possible keys; their order does not matter.
  unfoldable pub basic_complete : ScheduleTracker P → Bool
  unfolding some_below every_below ready
  basic_complete t =
      some_below 256 (λ b. is_basic (t.groups b))
      && every_below 256 (λ b. not (is_basic (t.groups b)) || is_ready (t.groups b))

  unfoldable pub extended_complete : ScheduleTracker P → Bool
  unfolding every_below ready
  extended_complete t = every_below 256 λ b. not (is_extended (t.groups b)) || is_ready (t.groups b)

  unfoldable pub has_extended : ScheduleTracker P → Bool
  unfolding some_below
  has_extended t = some_below 256 λ b. is_extended (t.groups b)

  abbrev basic_table : ScheduleTracker P → ℕ → Bool
  unfolding schedule_base_of
  basic_table t id = elim (t.tables id) [
    | none ↦ false
    | some _ ↦ elim (schedule_base_of t.system id) [ none ↦ false | some b ↦ b.basic ]
  ]

  unfoldable pub has_basic : ScheduleTracker P → Bool
  unfolding some_below schedule_base_of
  has_basic t = some_below 256 (basic_table t)

  unfoldable pub stable_for : ScheduleTracker P → ℕ → ℕ → Bool
  stable_for t now duration = elim t.latest [
    | none ↦ false
    | some latest ↦ leb (latest + duration) now
  ]

  -- `n` payloads from section `i` on, in section order.
  unfoldable pub table_payloads : ScheduleTable P → ℕ → ℕ → List P
  table_payloads table zero i = []
  table_payloads table (suc n) i =
      let later = table_payloads table n (i + 1) in
      elim (table.payloads i) [ none ↦ later | some p ↦ p ∷ later ]

  -- `Sections` of `n` tables from `id` on, in table order: each payload with its `Basic`.
  unfoldable pub sections_from : ScheduleTracker P → ℕ → ℕ → List (Bool × P)
  unfolding table_payloads schedule_base_of
  sections_from t zero id = []
  sections_from t (suc n) id =
      let later = sections_from t n (id + 1) in
      elim (t.tables id) [
        | none ↦ later
        | some table ↦ map (λ p. (basic_table t id, p)) (table_payloads table 256 0) ++ later
      ]

  unfoldable pub sections : ScheduleTracker P → List (Bool × P)
  unfolding sections_from
  sections t = sections_from t 256 0
