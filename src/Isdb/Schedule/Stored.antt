-- ===== src/Isdb/Schedule/Stored.antt =====
-- internal/isdb/schedule.go: what one flag counts as arrived is in its table.
use mahiron.Prelude.{
  ℕ, ◌+◌, ◌*◌, ◌<◌, ◌≡◌, ◌≢◌, ◌⊎◌, refl, sym, subst, inl, inr, Bool, true, ◌||◌, none, some, ltb,
  leb, ==_ne, Bool-cases, arith,
}
use mahiron.Prelude.Maps.{put_self}
use mahiron.Isdb.{SectionHeader}
use mahiron.Isdb.ReadyGroup.{
  ReadyFlag, ReadyGroup, change_last, change_version, mark, observe_group, reset_flag, same_last,
  past_last,
}
use mahiron.Isdb.ReadyGroup.Marks.{mark_lem}
use mahiron.Isdb.ReadyGroup.Again.{change_version-known}
use mahiron.Isdb.Schedule.{ScheduleTable, observe_table}

change_last_flags :
    (g : ReadyGroup) (last i : ℕ)
    → ((change_last g last).0.flags i ≡ g.flags i)
      ⊎ ((change_last g last).0.flags i ≡ reset_flag (leb i last))
unfolding change_last
change_last_flags g last i = elim (Bool-cases (same_last g.last_flags_id last)) [
  | inl same ↦ rw (same, change_last) (inl refl)
  | inr other ↦
      rw (other, change_last)
        (elim (Bool-cases (ltb last i || past_last g.last_flags_id i)) [
          | inl past ↦ rw past (inr refl)
          | inr within ↦ rw within (inl refl)
        ])
]

module _ {P : Type 0} where
  -- Section `n` is in the table, in version `v`.
  abbrev pub HasSection : ScheduleTable P → ℕ → ℕ → Type 0
  HasSection table n v = (table.versions n ≡ some v) × (table.payloads n ≢ none)

  -- What a flag counts as arrived is stored.
  abbrev pub Stored : ScheduleTable P → ReadyFlag → Type 0
  Stored table f =
      (seg k : ℕ)
      → k < 8
      → f.flag seg k ≡ true
      → (f.observed ≡ true) × HasSection table (seg * 8 + k) f.version

  abbrev pub HasPayloads : ScheduleTable P → Type 0
  HasPayloads table = (n : ℕ) → table.payloads n ≡ none → table.versions n ≡ none

  pub observe_table-HasPayloads :
      (table : ScheduleTable P) (h : SectionHeader) (p : P)
      → HasPayloads table
      → HasPayloads (observe_table table h p).0
  unfolding observe_table
  observe_table-HasPayloads table h p has n e = ground (arith, has n)

  -- A section that is stored stays so, but for the version of the one that comes in.
  observe_table_keeps :
      (table : ScheduleTable P) (h : SectionHeader) (p : P) (n v : ℕ)
      → HasSection table n v
      → (h.section_number ≡ n → v ≡ h.version)
      → HasSection (observe_table table h p).0 n v
  unfolding observe_table
  observe_table_keeps table h p n v has same = (ground arith, λ e. ground arith)

  observe_table_adds :
      (table : ScheduleTable P) (h : SectionHeader) (p : P)
      → HasPayloads table
      → HasSection (observe_table table h p).0 h.section_number h.version
  unfolding observe_table
  observe_table_adds table h p has = (ground arith, λ e. ground (arith, has h.section_number))

  reset_flag-Stored : (table : ScheduleTable P) (b : Bool) → Stored table (reset_flag b)
  unfolding reset_flag
  reset_flag-Stored table b seg k lt e = cc

  pub change_last-Stored :
      (table : ScheduleTable P) (g : ReadyGroup) (last i : ℕ)
      → Stored table (g.flags i)
      → Stored table ((change_last g last).0.flags i)
  change_last-Stored table g last i s = elim (change_last_flags g last i) [
    | inl same ↦ subst (Stored table) (sym same) s
    | inr fresh ↦ subst (Stored table) (sym fresh) (reset_flag-Stored table (leb i last))
  ]

  pub change_version-Stored :
      (table : ScheduleTable P) (f : ReadyFlag) (v : ℕ)
      → Stored table f
      → Stored table (change_version f v).0
  unfolding change_version
  change_version-Stored table f v s seg k lt e = ground (arith, s seg k lt)

  pub mark-Stored :
      (table : ScheduleTable P) (flags_id : ℕ) (f : ReadyFlag) (h : SectionHeader) (p : P) (now : ℕ)
      → HasPayloads table
      → Stored table f
      → f.observed ≡ true
      → f.version ≡ h.version
      → Stored (observe_table table h p).0 (mark flags_id f h now).0
  unfolding mark
  mark-Stored table flags_id f h p now has s on same seg k lt e = (
    on,
    rw same (elim (Bool-cases (f.flag seg k)) [
      | inl before ↦
          observe_table_keeps table h p (seg * 8 + k) h.version (rw same at (s seg k lt before).1)
            (λ _. refl)
      | inr not_before ↦
          let n : h.section_number ≡ seg * 8 + k =
            ground (arith, mark_lem flags_id f h now seg k lt) in
          rw (← n) (observe_table_adds table h p has)
    ]),
  )

  -- The flag of the section's table, through all of `observe_group`.
  pub observe_group-Stored_self :
      (table : ScheduleTable P) (g : ReadyGroup) (i last : ℕ) (h : SectionHeader) (p : P) (now : ℕ)
      → HasPayloads table
      → Stored table (g.flags i)
      → Stored (observe_table table h p).0 ((observe_group g i last h now).0.flags i)
  unfolding observe_group
  observe_group-Stored_self table g i last h p now has s =
      let g₁ = (change_last g last).0 in
      let f₁ = (change_version (g₁.flags i) h.version).0 in
      subst (Stored (observe_table table h p).0) (sym (put_self g₁.flags i (mark i f₁ h now).0)) (
        mark-Stored table i f₁ h p now has
          (change_version-Stored table (g₁.flags i) h.version (change_last-Stored table g last i s))
          (change_version-known (g₁.flags i) h.version).0
          (change_version-known (g₁.flags i) h.version).1)

  -- The flags of the other tables.
  pub observe_group-Stored_other :
      (table : ScheduleTable P) (g : ReadyGroup) (flags_id i last : ℕ) (h : SectionHeader) (now : ℕ)
      → flags_id ≢ i
      → Stored table (g.flags i)
      → Stored table ((observe_group g flags_id last h now).0.flags i)
  unfolding observe_group
  observe_group-Stored_other table g flags_id i last h now apart s =
      rw (==_ne flags_id i apart) (change_last-Stored table g last i s)
