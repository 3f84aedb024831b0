-- ===== src/Isdb/Schedule/Step.antt =====
-- internal/isdb/schedule.go: one observation keeps what a tracker counts as covered stored.
use mahiron.Prelude.{
  ℕ, ◌+◌, ◌<◌, ◌≡◌, ◌≢◌, ◌⊎◌, sym, ap, subst, ◌∙◌, inl, inr, Bool, Option, some, ◌==◌, ==→eq, ==_ne,
  Bool-cases, Option-cases, some_eq, arith,
}
use mahiron.Prelude.Maps.{put, put_self}
use mahiron.Isdb.{SectionHeader}
use mahiron.Isdb.ReadyGroup.{
  ScheduleBase, schedule_base_of, ReadyGroup, new_group, group_or_new, last_flags_id_of,
  change_last, observe_group,
}
use mahiron.Isdb.ReadyGroup.Bases.{IsBase, schedule_base_of-IsBase}
use mahiron.Isdb.Schedule.{
  ScheduleTracker, ScheduleTable, observe_known, observe_ready, observe_table, table_or_new,
}
use mahiron.Isdb.Schedule.Stored.{
  Stored, HasPayloads, observe_table-HasPayloads, observe_group-Stored_self,
  observe_group-Stored_other,
}

observe_group-basic :
    (g : ReadyGroup) (i last : ℕ) (h : SectionHeader) (now : ℕ)
    → (observe_group g i last h now).0.basic ≡ g.basic
unfolding observe_group change_last
observe_group-basic g i last h now = ground arith

module _ {P : Type 0} where
  abbrev pub table_at : ScheduleTracker P → ℕ → ScheduleTable P
  table_at t id = table_or_new (t.tables id)

  -- The groups have their bases, and what their flags count as arrived is stored.
  pub record Inv (t : ScheduleTracker P) : Type 0 where
    pub payloads : (id : ℕ) → HasPayloads (table_at t id)
    pub bases : (base : ℕ) (g : ReadyGroup) → t.groups base ≡ some g → IsBase t.system base g.basic
    pub stored :
        (base : ℕ) (g : ReadyGroup)
        → t.groups base ≡ some g
        → (i : ℕ) → i < 8
        → Stored (table_at t (base + i)) (g.flags i)

  module _ (t : ScheduleTracker P) (v : Inv t) (id : ℕ) (b : ScheduleBase) (h : SectionHeader)
      (p : P) (now : ℕ) (known : schedule_base_of t.system id ≡ some b) where
    group : ReadyGroup
    group = group_or_new (t.groups b.base) b

    own_base : IsBase t.system b.base group.basic
    unfolding group new_group
    own_base = elim (Option-cases (t.groups b.base)) [
      | inl e ↦
          subst (λ o. IsBase t.system b.base (group_or_new o b).basic) (sym e)
            (schedule_base_of-IsBase t.system id b known).0
      | inr (g, e) ↦
          subst (λ o. IsBase t.system b.base (group_or_new o b).basic) (sym e) (v.bases b.base g e)
    ]

    own-Stored : (i : ℕ) → i < 8 → Stored (table_at t (b.base + i)) (group.flags i)
    unfolding group new_group
    own-Stored i lt = elim (Option-cases (t.groups b.base)) [
      | inl e ↦
          subst (λ o. Stored (table_at t (b.base + i)) ((group_or_new o b).flags i)) (sym e)
            (λ seg k lt' f. cc)
      | inr (g, e) ↦
          subst (λ o. Stored (table_at t (b.base + i)) ((group_or_new o b).flags i)) (sym e)
            (v.stored b.base g e i lt)
    ]

    group' : ReadyGroup
    group' =
        (observe_group group b.index (last_flags_id_of t.system b.base h.last_table_id) h now).0

    tables' : ℕ → Option (ScheduleTable P)
    tables' = put t.tables id (some (observe_table (table_at t id) h p).0)

    kept_at : (j : ℕ) → id ≢ j → table_or_new (tables' j) ≡ table_at t j
    unfolding tables'
    kept_at j apart = rw (==_ne id j apart)

    new_at : table_or_new (tables' id) ≡ (observe_table (table_at t id) h p).0
    unfolding tables'
    new_at = ap table_or_new (put_self t.tables id (some (observe_table (table_at t id) h p).0))

    group'-Stored : (i : ℕ) → i < 8 → Stored (table_or_new (tables' (b.base + i))) (group'.flags i)
    unfolding group'
    group'-Stored i lt =
        let id_eq = (schedule_base_of-IsBase t.system id b known).2 in
        elim (Bool-cases (b.index == i)) [
          | inl same ↦
              let j : id ≡ b.base + i = ground arith in
              subst (λ x. Stored (table_or_new (tables' x)) (group'.flags i)) j
                (subst (λ x. Stored x (group'.flags i)) (sym new_at)
                  (subst (λ x. Stored (observe_table (table_at t id) h p).0 (group'.flags x))
                    (==→eq b.index i same)
                    (observe_group-Stored_self (table_at t id) group b.index
                      (last_flags_id_of t.system b.base h.last_table_id) h p now (v.payloads id)
                      (subst (λ x. Stored (table_at t x) (group.flags b.index)) (sym id_eq)
                        (own-Stored b.index (schedule_base_of-IsBase t.system id b known).1)))))
          | inr other ↦
              subst (λ x. Stored x (group'.flags i)) (sym (kept_at (b.base + i) (ground arith)))
                (observe_group-Stored_other (table_at t (b.base + i)) group b.index i
                  (last_flags_id_of t.system b.base h.last_table_id) h now (ground arith)
                  (own-Stored i lt))
        ]

    -- A table of another group is not the one that came in.
    other_table :
        (base : ℕ) (basic : Bool) (i : ℕ)
        → IsBase t.system base basic
        → b.base ≢ base
        → i < 8
        → id ≢ base + i
    other_table base basic i is_base apart lt e = apart (
        ap (λ (x : ScheduleBase). x.base)
          (some_eq b (record { base = base; index = i; basic = basic })
            (sym known ∙ ap (schedule_base_of t.system) e ∙ is_base i lt)))

    payloads' : (j : ℕ) → HasPayloads (table_or_new (tables' j))
    payloads' j = elim (Bool-cases (id == j)) [
      | inl same ↦
          subst (λ x. HasPayloads (table_or_new (tables' x))) (==→eq id j same)
            (subst HasPayloads (sym new_at)
              (observe_table-HasPayloads (table_at t id) h p (v.payloads id)))
      | inr other ↦ subst HasPayloads (sym (kept_at j (ground arith))) (v.payloads j)
    ]

    groups' : ℕ → Option ReadyGroup
    groups' = put t.groups b.base (some group')

    group_cases :
        (base : ℕ) (g : ReadyGroup)
        → groups' base ≡ some g
        → ((b.base ≡ base) × (group' ≡ g)) ⊎ ((b.base ≢ base) × (t.groups base ≡ some g))
    unfolding groups'
    group_cases base g e = elim (Bool-cases (b.base == base)) [
      | inl same ↦ inl (==→eq b.base base same, some_eq group' g (rw same at e))
      | inr other ↦ inr (ground arith, rw other at e)
    ]

    bases' : (base : ℕ) (g : ReadyGroup) → groups' base ≡ some g → IsBase t.system base g.basic
    bases' base g e = elim (group_cases base g e) [
      | inl (same, is_new) ↦
          subst (λ x. IsBase t.system x g.basic) same
            (subst (λ x. IsBase t.system b.base x)
              (sym basic' ∙ ap (λ (x : ReadyGroup). x.basic) is_new) own_base)
      | inr (other, old) ↦ v.bases base g old
    ]
      where
        basic' : group'.basic ≡ group.basic
        basic' = unfold group' in observe_group-basic group b.index _ h now

    stored' :
        (base : ℕ) (g : ReadyGroup)
        → groups' base ≡ some g
        → (i : ℕ) → i < 8
        → Stored (table_or_new (tables' (base + i))) (g.flags i)
    stored' base g e i lt = elim (group_cases base g e) [
      | inl (same, is_new) ↦
          subst (λ x. Stored (table_or_new (tables' (x + i))) (g.flags i)) same
            (subst (λ (x : ReadyGroup). Stored (table_or_new (tables' (b.base + i))) (x.flags i))
              is_new (group'-Stored i lt))
      | inr (other, old) ↦
          let apart = other_table base g.basic i (v.bases base g old) other lt in
          subst (λ x. Stored x (g.flags i)) (sym (kept_at (base + i) apart))
            (v.stored base g old i lt)
    ]

    pub observe_known-Inv : Inv (observe_known t id b h p now).0
    unfolding observe_known observe_ready tables' groups' group' group
    observe_known-Inv = record { payloads = payloads'; bases = bases'; stored = stored' }
