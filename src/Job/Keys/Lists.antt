-- ===== src/Job/Keys/Lists.antt =====
-- internal/job/manager.go: lists of jobs, and what trimming the history keeps.
use mahiron.Prelude.{
  ℕ, zero, suc, ◌+◌, ◌-◌, ◌≡◌, refl, subst, true, false, ◌||◌, some, some_eq, List, [], ◌∷◌, ◌++◌,
  ltb, ◌==◌, ==→eq, length, inl, inr, Bool-cases, Option-cases, if◌then◌else◌, arith,
}
use mahiron.Job.{Job, finished}
use mahiron.Job.Queue.{remove}
use mahiron.Job.Run.{is_status, remove_finished, trim_loop}
use mahiron.Job.Api.{has_id}
use mahiron.Job.Keys.{times}

pub has_id-times : (id : ℕ) (l : List ℕ) → has_id id l ≡ ltb 0 (times id l)
has_id-times id [] = refl
has_id-times id (x ∷ xs) = ground (arith, has_id-times id xs)

pub times-remove :
    (id i : ℕ) (l : List ℕ) → times i (remove id l) ≡ (if id == i then times i l - 1 else times i l)
unfolding remove
times-remove id i [] = ground arith
times-remove id i (x ∷ xs) = ground (arith, times-remove id i xs)

pub has_id-append : (id i : ℕ) (l : List ℕ) → has_id i (l ++ (id ∷ [])) ≡ (has_id i l || id == i)
has_id-append id i [] = ground arith
has_id-append id i (x ∷ xs) = ground (arith, has_id-append id i xs)

pub times-append :
    (id i : ℕ) (l : List ℕ) → times i (l ++ (id ∷ [])) ≡ times i l + (if id == i then 1 else 0)
times-append id i [] = ground arith
times-append id i (x ∷ xs) = ground (arith, times-append id i xs)

module _ (jobs : ℕ → Job) (i : ℕ) where
  -- What a shorter history still holds.
  abbrev pub Kept : List ℕ → List ℕ → Type 0
  Kept l l' =
      (has_id i l' ≡ true → has_id i l ≡ true)
      × (is_status (jobs i).status finished ≡ false → has_id i l' ≡ has_id i l)

  differs :
      (x : ℕ)
      → is_status (jobs x).status finished ≡ true
      → is_status (jobs i).status finished ≡ false
      → (x == i) ≡ false
  differs x over live = elim (Bool-cases (x == i)) [
    | inl same ↦
        let over' = subst (λ y. is_status (jobs y).status finished ≡ true) (==→eq x i same) over in
        cc
    | inr other ↦ other
  ]

  remove_finished_keeps : (l l' : List ℕ) → remove_finished jobs l ≡ some l' → Kept l l'
  unfolding remove_finished
  remove_finished_keeps [] l' e = cc
  remove_finished_keeps (x ∷ xs) l' e = elim (Bool-cases (is_status (jobs x).status finished)) [
    | inl over ↦
        let same : xs ≡ l' = some_eq xs l' (rw over at e) in
        subst (Kept (x ∷ xs)) same (λ h. ground arith, λ h. ground (arith, differs x over h))
    | inr live ↦ elim (Option-cases (remove_finished jobs xs)) [
      | inl nothing ↦ let e' = rw (live, nothing) at e in cc
      | inr (xs', found) ↦
          let same : x ∷ xs' ≡ l' = some_eq (x ∷ xs') l' (rw (live, found) at e) in
          let (sub, keep) = remove_finished_keeps xs xs' found in
          subst (Kept (x ∷ xs)) same (λ h. ground (arith, sub), λ h. ground (arith, keep h))
    ]
  ]

  pub trim_loop_keeps : (fuel bound : ℕ) (l : List ℕ) → Kept l (trim_loop fuel jobs bound l)
  unfolding trim_loop
  trim_loop_keeps zero bound l = (λ h. h, λ h. refl)
  trim_loop_keeps (suc fuel) bound l = elim (Bool-cases (ltb bound (length l))) [
    | inr short ↦ rw (short, trim_loop) (λ h. h, λ h. refl)
    | inl long ↦ elim (Option-cases (remove_finished jobs l)) [
      | inl nothing ↦ rw (long, nothing, trim_loop) (λ h. h, λ h. refl)
      | inr (l', found) ↦
          let (sub, same) = remove_finished_keeps l l' found in
          let (sub', same') = trim_loop_keeps fuel bound l' in
          rw (long, found, trim_loop) (λ h. sub (sub' h), λ h. ground (arith, same h, same' h))
    ]
  ]
