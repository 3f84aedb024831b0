-- ===== src/Isdb/Schedule/Coverage.antt =====
-- internal/isdb/schedule.go: what a tracker counts as covered is stored, at the version of its table.
use mahiron.Prelude.{
  ℕ, ◌+◌, ◌*◌, ◌<◌, ◌≡◌, refl, sym, subst, inl, inr, Bool, true, false, some, List, [], ◌∷◌,
  Option-cases, every_below, every_below-at, arith,
}
use mahiron.Isdb.{SectionHeader}
use mahiron.Isdb.ReadyGroup.{ScheduleSystem, schedule_base_of, ReadyGroup, ready, covered, full}
use mahiron.Isdb.ReadyGroup.Marks.{full_bit}
use mahiron.Isdb.Schedule.{
  ScheduleTracker, Observation, observe_all, new_schedule_tracker, observe, new_table, table_or_new,
}
use mahiron.Isdb.Schedule.Progress.{observe-some, observe-none}
use mahiron.Isdb.Schedule.Stored.{HasSection}
use mahiron.Isdb.Schedule.Step.{Inv, observe_known-Inv}

ready_bit :
    (g : ReadyGroup) (i seg k : ℕ)
    → ready g ≡ true
    → i < 8
    → seg < 32
    → k < 8
    → covered (g.flags i) seg k ≡ true
unfolding ready
ready_bit g i seg k r hi hs hk =
    full_bit (covered (g.flags i) seg) k
      (every_below-at 32 (λ j. full (covered (g.flags i) j)) seg
        (every_below-at 8 (λ j. every_below 32 λ l. full (covered (g.flags j) l)) i r hi) hs)
      hk

module _ {P : Type 0} where
  observe-Inv :
      (t : ScheduleTracker P) (id : ℕ) (h : SectionHeader) (p : P) (now : ℕ)
      → Inv t
      → Inv (observe t id h p now).0
  observe-Inv t id h p now v = elim (Option-cases (schedule_base_of t.system id)) [
    | inl e ↦
        subst (λ (r : ScheduleTracker P × Bool). Inv r.0) (sym (observe-none t id h p now e)) v
    | inr (b, e) ↦
        subst (λ (r : ScheduleTracker P × Bool). Inv r.0) (sym (observe-some t id b h p now e))
          (observe_known-Inv t v id b h p now e)
  ]

  observe_all-Inv :
      (t : ScheduleTracker P) (os : List (Observation P)) → Inv t → Inv (observe_all t os)
  unfolding observe_all
  observe_all-Inv t [] v = v
  observe_all-Inv t ((id, h, p, now) ∷ os) v =
      observe_all-Inv (observe t id h p now).0 os (observe-Inv t id h p now v)

  new-Inv : (system : ScheduleSystem) → Inv (new_schedule_tracker {P = P} system)
  unfolding new_schedule_tracker new_table
  new-Inv system = record {
    payloads = λ id n e. refl;
    bases = λ base g e. cc;
    stored = λ base g e i lt. cc;
  }

  -- After any sequence of observed sections, each section of a group that is ready, unless it is
  -- ignored, is stored with a payload, and in the version of its table's flag, so that no section
  -- of an older version of the table counts.
  pub ready_sections_stored :
      (system : ScheduleSystem) (os : List (Observation P)) (base : ℕ) (g : ReadyGroup)
      (i seg k : ℕ)
      → (observe_all (new_schedule_tracker system) os).groups base ≡ some g
      → ready g ≡ true
      → i < 8
      → seg < 32
      → k < 8
      → (g.flags i).ignore seg k ≡ false
      → HasSection
          (table_or_new ((observe_all (new_schedule_tracker system) os).tables (base + i)))
          (seg * 8 + k)
          (g.flags i).version
  ready_sections_stored system os base g i seg k e r hi hs hk not_ignored =
      let v = observe_all-Inv (new_schedule_tracker system) os (new-Inv system) in
      let flagged : (g.flags i).flag seg k ≡ true =
        ground (arith, ready_bit g i seg k r hi hs hk) in
      (v.stored base g e i hi seg k hk flagged).1
