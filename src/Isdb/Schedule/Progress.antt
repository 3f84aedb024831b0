-- ===== src/Isdb/Schedule/Progress.antt =====
-- internal/isdb/schedule.go: a section that comes again is no progress.
use mahiron.Prelude.{
  ℕ, ◌+◌, ◌/◌, ◌≡◌, refl, sym, ap, ◌∙◌, inl, inr, Bool, true, false, Option, none, some, ==_refl,
  Option-cases, if◌then◌else◌,
}
use native.Mathlib.Nat.{add-zero}
use mahiron.Prelude.Maps.{put, put_self, put_same}
use mahiron.Isdb.{SectionHeader}
use mahiron.Isdb.ReadyGroup.{
  schedule_base_of, ScheduleBase, last_flags_id_of, group_or_new, observe_group, ReadyGroup,
}
use mahiron.Isdb.ReadyGroup.Again.{observe_group_again}
use mahiron.Isdb.Schedule.{
  ScheduleTracker, ScheduleTable, observe, observe_known, observe_ready, observe_table,
  table_or_new, version_changed,
}

module _ {P : Type 0} where
  observe_table_done :
      (table : ScheduleTable P) (h : SectionHeader) (p : P)
      → table.version ≡ h.version
      → table.has_version ≡ true
      → table.last_section ≡ h.last_section_number
      → table.segment_last (h.section_number / 8) ≡ some h.segment_last_section
      → table.sections h.section_number ≡ true
      → table.versions h.section_number ≡ some h.version
      → observe_table table h p ≡ (table, false)
  unfolding observe_table
  observe_table_done table h p v on last seg here version =
      rw (old, put_same table.versions n (some h.version) version)
        λ i. (
          record {
            version = sym v i;
            has_version = sym on i;
            last_section = sym last i;
            segment_last = put_same table.segment_last (n / 8) (some h.segment_last_section) seg i;
            sections = put_same table.sections n true here i;
            payloads = table.payloads;
            versions = table.versions;
          },
          false,
        )
    where
      n : ℕ
      n = h.section_number

      old : version_changed (table.versions n) h.version ≡ false
      old = rw (version, ==_refl h.version)

  observe_table_again :
      (table : ScheduleTable P) (h : SectionHeader) (p p' : P)
      → let table' = (observe_table table h p).0 in observe_table table' h p' ≡ (table', false)
  unfolding observe_table
  observe_table_again table h p p' =
      observe_table_done (observe_table table h p).0 h p' refl refl refl
        (put_self table.segment_last (h.section_number / 8) (some h.segment_last_section))
        (put_self table.sections h.section_number true)
        (put_self table.versions h.section_number (some h.version))

  observe_ready_done :
      (t : ScheduleTracker P) (b : ScheduleBase) (h : SectionHeader) (now : ℕ) (g : ReadyGroup)
      → t.groups b.base ≡ some g
      → observe_group g b.index (last_flags_id_of t.system b.base h.last_table_id) h now
        ≡ (g, 0, false)
      → observe_ready t b h now ≡ (t, false)
  unfolding observe_ready
  observe_ready_done t b h now g e done =
      ap (λ (o : Option ReadyGroup). ready_from o) e
      ∙ ap (λ (r : ReadyGroup × ℕ × Bool). with_group r) done
      ∙ λ i. (
        record t { groups = put_same t.groups b.base (some g) e i; resets = add-zero t.resets i },
        false,
      )
    where
      with_group : ReadyGroup × ℕ × Bool → ScheduleTracker P × Bool
      with_group r =
          (record t { groups = put t.groups b.base (some r.0); resets = t.resets + r.1 }, r.2)

      ready_from : Option ReadyGroup → ScheduleTracker P × Bool
      ready_from o = with_group (
          observe_group (group_or_new o b) b.index
            (last_flags_id_of t.system b.base h.last_table_id) h now)

  observe_ready_again :
      (t : ScheduleTracker P) (b : ScheduleBase) (h : SectionHeader) (now : ℕ)
      → let t' = (observe_ready t b h now).0 in observe_ready t' b h now ≡ (t', false)
  unfolding observe_ready
  observe_ready_again t b h now =
      let last = last_flags_id_of t.system b.base h.last_table_id in
      let g = group_or_new (t.groups b.base) b in
      observe_ready_done (observe_ready t b h now).0 b h now (observe_group g b.index last h now).0
        (put_self t.groups b.base (some (observe_group g b.index last h now).0))
        (observe_group_again g b.index last h now)

  observe_known_done :
      (t : ScheduleTracker P) (id : ℕ) (b : ScheduleBase) (h : SectionHeader) (p : P) (now : ℕ)
      (table : ScheduleTable P)
      → t.tables id ≡ some table
      → observe_table table h p ≡ (table, false)
      → observe_ready t b h now ≡ (t, false)
      → observe_known t id b h p now ≡ (t, false)
  unfolding observe_known
  observe_known_done t id b h p now table here same_table same_groups =
      rw (here, same_table)
        (ap (λ (m : ℕ → Option (ScheduleTable P)). rest (record t { tables = m }))
            (put_same t.tables id (some table) here)
          ∙ ap
              (λ (r : ScheduleTracker P × Bool).
                (record r.0 { latest = if r.1 then some now else r.0.latest }, r.1))
              same_groups)
    where
      rest : ScheduleTracker P → ScheduleTracker P × Bool
      rest t₁ =
          let r = observe_ready t₁ b h now in
          (record r.0 { latest = if r.1 then some now else r.0.latest }, r.1)

  observe_known_again :
      (t : ScheduleTracker P) (id : ℕ) (b : ScheduleBase) (h : SectionHeader) (p p' : P) (now : ℕ)
      → let t' = (observe_known t id b h p now).0 in observe_known t' id b h p' now ≡ (t', false)
  unfolding observe_known observe_ready
  observe_known_again t id b h p p' now =
      let table = table_or_new (t.tables id) in
      let table' = (observe_table table h p).0 in
      let t' = (observe_known t id b h p now).0 in
      observe_known_done t' id b h p' now table' (put_self t.tables id (some table'))
        (observe_table_again table h p p')
        (observe_ready_again
          (record t { tables = put t.tables id (some table'); latest = t'.latest }) b h now)

  pub observe-some :
      (t : ScheduleTracker P) (id : ℕ) (b : ScheduleBase) (h : SectionHeader) (p : P) (now : ℕ)
      → schedule_base_of t.system id ≡ some b
      → observe t id h p now ≡ observe_known t id b h p now
  unfolding observe
  observe-some t id b h p now e = rw (e, observe)

  pub observe-none :
      (t : ScheduleTracker P) (id : ℕ) (h : SectionHeader) (p : P) (now : ℕ)
      → schedule_base_of t.system id ≡ none
      → observe t id h p now ≡ (t, false)
  unfolding observe
  observe-none t id h p now e = rw (e, observe)

  known_system :
      (t : ScheduleTracker P) (id : ℕ) (b : ScheduleBase) (h : SectionHeader) (p : P) (now : ℕ)
      → schedule_base_of t.system id ≡ some b
      → schedule_base_of (observe_known t id b h p now).0.system id ≡ some b
  unfolding observe_known observe_ready
  known_system t id b h p now e = e

  -- Observing a section a second time, at the same time and with whatever payload, changes nothing
  -- and reports no progress.
  pub observe_again :
      (t : ScheduleTracker P) (id : ℕ) (h : SectionHeader) (p p' : P) (now : ℕ)
      → let t' = (observe t id h p now).0 in observe t' id h p' now ≡ (t', false)
  observe_again t id h p p' now = elim (Option-cases (schedule_base_of t.system id)) [
    | inl e ↦ rw (observe-none t id h p now e) (observe-none t id h p' now e)
    | inr (b, e) ↦
        let known = (observe_known t id b h p now).0 in
        rw (observe-some t id b h p now e) (
          observe-some known id b h p' now (known_system t id b h p now e)
          ∙ observe_known_again t id b h p p' now)
  ]
