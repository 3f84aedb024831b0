-- ===== src/Job/Pick.antt =====
-- `popRunnableQueueLocked` of internal/job/manager.go takes the first of the most urgent runnable jobs.
use mahiron.Prelude.{
  ℕ, ◌≡◌, ◌≢◌, ◌⊎◌, refl, sym, ap, ◌∙◌, subst, true, false, ◌&&◌, Option, none, some, some_eq, List,
  [], ◌∷◌, ◌==◌, ==→eq, inl, inr, Bool-cases, Option-cases, if◌then◌else◌, arith,
}
use mahiron.Prelude.Int.{ℤ, ltb_ℤ, ltb_ℤ_trans, ltb_ℤ_of_le, ltb_ℤ_le_trans, ltb_ℤ_irrefl}
use mahiron.Job.{Manager}
use mahiron.Job.Queue.{definition_of, runnable, precedes, select, remove, pop_runnable}
use mahiron.Job.Api.{has_id}

-- The entries of a list before the first one of a job.
abbrev pub before : ℕ → List ℕ → List ℕ
before id [] = []
before id (x ∷ xs) = if x == id then [] else x ∷ before id xs

abbrev pub priority_of : Manager → ℕ → ℤ
priority_of m id = (definition_of m id).priority

module _ (m : Manager) where
  abbrev better : ℕ → Option ℕ → Option ℕ
  better x selected = if runnable m x && precedes m x selected then some x else selected

  select-runnable :
      (items : List ℕ) (selected : Option ℕ) (id : ℕ)
      → select m items selected ≡ some id
      → (selected ≡ some id) ⊎ ((runnable m id ≡ true) × (has_id id items ≡ true))
  unfolding select
  select-runnable [] selected id e = inl e
  select-runnable (x ∷ xs) selected id e = ground (arith, select-runnable xs (better x selected) id)

  -- A round takes the job, or passes it over.
  better_cases :
      (x : ℕ) (selected : Option ℕ)
      → ((better x selected ≡ some x) × (runnable m x ≡ true) × (precedes m x selected ≡ true))
        ⊎ ((better x selected ≡ selected) × (runnable m x ≡ true → precedes m x selected ≡ false))
  better_cases x selected = ground arith

  precedes-false :
      (x : ℕ) (selected : Option ℕ)
      → precedes m x selected ≡ false
      → (s : ℕ) × (selected ≡ some s) × (ltb_ℤ (priority_of m s) (priority_of m x) ≡ false)
  precedes-false x none h = cc
  precedes-false x (some s) h = (s, refl, h)

  -- Nothing that was passed over is more urgent than the selected job.
  select-urgent :
      (items : List ℕ) (selected : Option ℕ) (id : ℕ)
      → select m items selected ≡ some id
      → ((s : ℕ) → selected ≡ some s → ltb_ℤ (priority_of m id) (priority_of m s) ≡ false)
        × ((j : ℕ)
            → has_id j items ≡ true
            → runnable m j ≡ true
            → ltb_ℤ (priority_of m id) (priority_of m j) ≡ false)
  unfolding select
  select-urgent [] selected id e = (
    λ s e'. let same = some_eq s id (sym e' ∙ e) in rw same (ltb_ℤ_irrefl (priority_of m id)),
    λ j h r. cc,
  )
  select-urgent (x ∷ xs) selected id e =
      let (of_selected, of_later) = select-urgent xs (better x selected) id e in
      elim (better_cases x selected) [
        | inl (took, r, prec) ↦
            let not_x = of_selected x took in
            (
              λ s e'. ground (
                arith,
                ltb_ℤ_trans (priority_of m id) (priority_of m s) (priority_of m x),
                prec,
                not_x,
              ),
              λ j h r'. ground (arith, not_x, of_later j),
            )
        | inr (kept, passed) ↦ (
          λ s e'. of_selected s (kept ∙ e'),
          λ j h r'. elim (Bool-cases (x == j)) [
            | inl same ↦
                let x_runs = subst (λ y. runnable m y ≡ true) (sym (==→eq x j same)) r' in
                let (s, es, le) = precedes-false x selected (passed x_runs) in
                subst (λ y. ltb_ℤ (priority_of m id) (priority_of m y) ≡ false) (==→eq x j same)
                  (ground (
                    arith,
                    ltb_ℤ_le_trans (priority_of m id) (priority_of m x) (priority_of m s),
                    of_selected s (kept ∙ es),
                  ))
            | inr other ↦ of_later j (rw other at h) r'
          ],
        )
      ]

  -- And what stands before it is less urgent.
  select-first :
      (items : List ℕ) (selected : Option ℕ) (id : ℕ)
      → select m items selected ≡ some id
      → selected ≢ some id
      → ((s : ℕ) → selected ≡ some s → ltb_ℤ (priority_of m s) (priority_of m id) ≡ true)
        × ((j : ℕ)
            → has_id j (before id items) ≡ true
            → runnable m j ≡ true
            → ltb_ℤ (priority_of m j) (priority_of m id) ≡ true)
  unfolding select
  select-first [] selected id e ne = absurd (ne e)
  select-first (x ∷ xs) selected id e ne = elim (Bool-cases (x == id)) [
    | inl here ↦ (
      λ s e'. elim (better_cases x selected) [
        | inl (took, r, prec) ↦
            subst (λ y. ltb_ℤ (priority_of m s) (priority_of m y) ≡ true) (==→eq x id here)
              (subst (λ o. precedes m x o ≡ true) e' prec)
        | inr (kept, passed) ↦
            (select-first xs (better x selected) id e (λ q. ne (sym kept ∙ q))).0 s (kept ∙ e')
      ],
      λ j h r. let h' = rw here at h in cc,
    )
    | inr other ↦ elim (better_cases x selected) [
      | inl (took, r, prec) ↦
          let ne' : better x selected ≢ some id =
            λ q. ground (arith, some_eq x id (sym took ∙ q)) in
          let (of_selected, of_later) = select-first xs (better x selected) id e ne' in
          let x_less = of_selected x took in
          (
            λ s e'.
                ltb_ℤ_trans (priority_of m s) (priority_of m x) (priority_of m id)
                  (subst (λ o. precedes m x o ≡ true) e' prec) x_less,
            λ j h r'. ground (arith, x_less, of_later j, rw other at h),
          )
      | inr (kept, passed) ↦
          let (of_selected, of_later) =
            select-first xs (better x selected) id e (λ q. ne (sym kept ∙ q)) in
          (
            λ s e'. of_selected s (kept ∙ e'),
            λ j h r'. elim (Bool-cases (x == j)) [
              | inl same ↦
                  let x_runs = subst (λ y. runnable m y ≡ true) (sym (==→eq x j same)) r' in
                  let (s, es, le) = precedes-false x selected (passed x_runs) in
                  subst (λ y. ltb_ℤ (priority_of m y) (priority_of m id) ≡ true) (==→eq x j same)
                    (ltb_ℤ_of_le (priority_of m s) (priority_of m x) (priority_of m id) le
                      (of_selected s (kept ∙ es)))
              | inr apart ↦ of_later j (rw (other, apart) at h) r'
            ],
          )
    ]
  ]

  select-none :
      (items : List ℕ) (selected : Option ℕ)
      → select m items selected ≡ none
      → (selected ≡ none) × ((j : ℕ) → has_id j items ≡ true → runnable m j ≡ false)
  unfolding select
  select-none [] selected e = (e, λ j h. cc)
  select-none (x ∷ xs) selected e =
      let (of_selected, of_later) = select-none xs (better x selected) e in
      elim (better_cases x selected) [
        | inl (took, r, prec) ↦ cc
        | inr (kept, passed) ↦
            let e' : selected ≡ none = sym kept ∙ of_selected in
            (e', λ j h. ground (arith, passed, of_later j))
      ]

-- The job that `pop_runnable` takes is queued and runnable; no runnable job of the queue is more
-- urgent, the runnable ones before it are less urgent, and it is all that leaves the queue.
pub pop_runnable_lem :
    (m : Manager) (id : ℕ) (m' : Manager)
    → pop_runnable m ≡ some (id, m')
    → (runnable m id ≡ true)
      × (has_id id m.queue ≡ true)
      × ((j : ℕ)
          → has_id j m.queue ≡ true
          → runnable m j ≡ true
          → ltb_ℤ (priority_of m id) (priority_of m j) ≡ false)
      × ((j : ℕ)
          → has_id j (before id m.queue) ≡ true
          → runnable m j ≡ true
          → ltb_ℤ (priority_of m j) (priority_of m id) ≡ true)
      × (m' ≡ record m { queue = remove id m.queue })
unfolding pop_runnable
pop_runnable_lem m id m' e = elim (Option-cases (select m m.queue none)) [
  | inl nothing ↦ let e' = rw (nothing, pop_runnable) at e in cc
  | inr (k, found) ↦
      let pair : (k, record m { queue = remove k m.queue }) ≡ (id, m') =
        some_eq _ (id, m') (rw (found, pop_runnable) at e) in
      let same : k ≡ id = ap (λ (p : ℕ × Manager). p.0) pair in
      let found' : select m m.queue none ≡ some id = found ∙ ap some same in
      let (runs, there) = picked id (select-runnable m m.queue none id found') in
      (
        runs,
        there,
        (select-urgent m m.queue none id found').1,
        (select-first m m.queue none id found' (λ q. cc)).1,
        sym (ap (λ (p : ℕ × Manager). p.1) pair)
            ∙ ap (λ i. record m { queue = remove i m.queue }) same,
      )
]
  where
    picked :
        (i : ℕ)
        → (none ≡ some i) ⊎ ((runnable m i ≡ true) × (has_id i m.queue ≡ true))
        → (runnable m i ≡ true) × (has_id i m.queue ≡ true)
    picked i (inl q) = cc
    picked i (inr h) = h

-- `pop_runnable` finds nothing only if no job of the queue is runnable.
pub pop_runnable-none :
    (m : Manager) → pop_runnable m ≡ none → (j : ℕ) → has_id j m.queue ≡ true → runnable m j ≡ false
unfolding pop_runnable
pop_runnable-none m e = elim (Option-cases (select m m.queue none)) [
  | inl nothing ↦ (select-none m m.queue none nothing).1
  | inr (k, found) ↦ let e' = rw (found, pop_runnable) at e in cc
]
