-- ===== src/Job/Load/Start.antt =====
-- `startJobLocked` and `completeActiveLocked` of internal/job/manager.go keep the running jobs
-- consistent.
use text.Mathlib.TextEquality.{eq_iff}
use mahiron.Prelude.{
  ℕ, ◌+◌, ◌-◌, ◌≤◌, ◌≡◌, ap, fun_ext, String, Bool, true, false, not, ◌&&◌, ◌||◌, List, [], ◌∷◌,
  ltb, arith,
}
use mahiron.Prelude.Maps.{put_str}
use mahiron.Prelude.Keys.{occurrences, has_key, all_keys}
use mahiron.Job.{JobDefinition, Manager}
use mahiron.Job.Queue.{
  definition_of, shared_full, group_full, dependencies_satisfied, independent_running, remove,
}
use mahiron.Job.Api.{has_id}
use mahiron.Job.Load.{
  Load, load, total, one, in_group, shares, holds, reads, sharing, limit_of, IsConsistent,
}
use mahiron.Job.Load.Totals.{total-remove, total-le, total_split, occurrences_of_absent}

abbrev pub started : Load → ℕ → Load
started l id =
    let d = l.defs id in
    let g = d.concurrency_group in
    record l {
      active = id ∷ l.active;
      exclusive = λ k. has_key k d.exclusive_keys || l.exclusive k;
      shared = λ k. l.shared k + occurrences k d.shared_keys;
      running = l.running + 1;
      group_running = put_str l.group_running g (l.group_running g + 1);
    }

abbrev pub completed : Load → ℕ → Load
completed l id =
    let d = l.defs id in
    let g = d.concurrency_group in
    record l {
      active = remove id l.active;
      exclusive = λ k. not (has_key k d.exclusive_keys) && l.exclusive k;
      shared = λ k. l.shared k - occurrences k d.shared_keys;
      running = l.running - 1;
      group_running = put_str l.group_running g (l.group_running g - 1);
    }

all_keys-has_key :
    (p : String → Bool) (k : String) (ks : List String)
    → all_keys p ks ≡ true
    → has_key k ks ≡ true
    → p k ≡ true
all_keys-has_key p k [] h i = cc
all_keys-has_key p k (x ∷ xs) h i = ground (arith, eq_iff x k, all_keys-has_key p k xs)

reads-le-shares : (k : String) (d : JobDefinition) → reads k d ≤ shares k d
reads-le-shares k d = ground arith

module _ (m : Manager) (id : ℕ) (c : IsConsistent (load m)) where
  module _ (room : shared_full m (definition_of m id) ≡ false)
      (group_room : group_full m (definition_of m id) ≡ false)
      (free : dependencies_satisfied m (definition_of m id) ≡ true) where
    exclusive_free :
        (k : String)
        → has_key k (definition_of m id).exclusive_keys ≡ true
        → (m.active_exclusive_keys k ≡ false) × (m.active_shared_keys k ≡ 0)
    unfolding dependencies_satisfied
    exclusive_free k h = ground (
      arith,
      free,
      all_keys-has_key
          (λ key. not (m.active_exclusive_keys key || ltb 0 (m.active_shared_keys key))) k
          (definition_of m id).exclusive_keys,
    )

    shared_free :
        (k : String)
        → has_key k (definition_of m id).shared_keys ≡ true
        → m.active_exclusive_keys k ≡ false
    unfolding dependencies_satisfied
    shared_free k h = ground (
      arith,
      free,
      all_keys-has_key (λ key. not (m.active_exclusive_keys key)) k
          (definition_of m id).shared_keys,
    )

    group_bound :
        (g : String) → total (in_group g) (definition_of m) (id ∷ m.active) ≤ limit_of (load m) g
    unfolding group_full
    group_bound g = ground (
      arith,
      group_room,
      c.group_within g,
      c.groups_counted g,
      eq_iff (definition_of m id).concurrency_group g,
    )

    counted_groups :
        independent_running m.group_running m.independent
        ≡ independent_running (λ g. total (in_group g) (definition_of m) m.active) m.independent
    counted_groups = ap (λ r. independent_running r m.independent) (fun_ext c.groups_counted)

    sharing_bound :
        total (sharing m.independent) (definition_of m) (id ∷ m.active) ≤ m.max_concurrent
    unfolding shared_full
    sharing_bound = ground (
      arith,
      room,
      c.counted,
      c.sharing_within,
      counted_groups,
      total_split m.independent (definition_of m) m.active c.distinct,
    )

    pub started-IsConsistent : IsConsistent (started (load m) id)
    started-IsConsistent = record {
      counted = omega (arith, c.counted);
      groups_counted =
          λ g. ground (arith, c.groups_counted g, eq_iff (definition_of m id).concurrency_group g);
      shared_counted = λ k. omega (arith, c.shared_counted k);
      exclusive_counted = λ k. ground (arith, c.exclusive_counted k);
      one_holder = λ k. ground (arith, c.one_holder k, c.exclusive_counted k, exclusive_free k);
      no_reader = λ k h. ground (
        arith,
        c.no_reader k,
        c.exclusive_counted k,
        c.shared_counted k,
        exclusive_free k,
        shared_free k,
        total-le (reads k) (definition_of m) (shares k) (reads-le-shares k) m.active,
        occurrences_of_absent k (definition_of m id).shared_keys,
      );
      group_within = group_bound;
      sharing_within = sharing_bound;
      distinct = c.distinct;
    }

  module _ (there : has_id id m.active ≡ true) where
    removed :
        (f : JobDefinition → ℕ)
        → total f (definition_of m) (remove id m.active) + f (definition_of m id)
          ≡ total f (definition_of m) m.active
    removed f = total-remove f (definition_of m) id m.active there

    pub completed-IsConsistent : IsConsistent (completed (load m) id)
    completed-IsConsistent = record {
      counted = omega (arith, c.counted, removed one);
      groups_counted = λ g. ground (
        arith,
        removed (in_group g),
        c.groups_counted g,
        eq_iff (definition_of m id).concurrency_group g,
      );
      shared_counted = λ k. omega (arith, c.shared_counted k, removed (shares k));
      exclusive_counted =
          λ k. ground (arith, c.exclusive_counted k, c.one_holder k, removed (holds k));
      one_holder = λ k. omega (arith, c.one_holder k, removed (holds k));
      no_reader = λ k h. omega (arith, c.no_reader k, removed (holds k), removed (reads k));
      group_within = λ g. omega (arith, c.group_within g, removed (in_group g));
      sharing_within = omega (arith, c.sharing_within, removed (sharing m.independent));
      distinct = c.distinct;
    }
