-- ===== src/Job/Load/Totals.antt =====
-- Sums over the running jobs (internal/job/manager.go).
use text.Mathlib.Text.{◌==◌ as str_eq}
use text.Mathlib.TextEquality.{eq_iff}
use mahiron.Prelude.{
  ℕ, ◌+◌, ◌≤◌, ◌<◌, ◌≡◌, refl, ap, String, true, false, List, [], ◌∷◌, ◌==◌, ==→eq, inl, inr,
  Bool-cases, arith,
}
use mahiron.Prelude.Keys.{occurrences, has_key}
use mahiron.Job.{JobDefinition}
use mahiron.Job.Queue.{remove, independent_running}
use mahiron.Job.Api.{has_id}
use mahiron.Job.Load.{total, one, in_group, sharing}

module _ (f : JobDefinition → ℕ) (defs : ℕ → JobDefinition) where
  pub total-remove :
      (id : ℕ) (l : List ℕ)
      → has_id id l ≡ true
      → total f defs (remove id l) + f (defs id) ≡ total f defs l
  unfolding remove
  total-remove id [] h = cc
  total-remove id (x ∷ xs) h = elim (Bool-cases (x == id)) [
    | inl here ↦
        let e : x ≡ id = ==→eq x id here in rw here (omega (arith, ap (λ (y : ℕ). f (defs y)) e))
    | inr there ↦ rw there (omega (arith, total-remove id xs (rw there at h)))
  ]

  pub total-le :
      (g : JobDefinition → ℕ)
      → ((d : JobDefinition) → f d ≤ g d)
      → (l : List ℕ) → total f defs l ≤ total g defs l
  total-le g le [] = omega arith
  total-le g le (x ∷ xs) = omega (arith, le (defs x), total-le g le xs)

pub str_eq_comm : (s t : String) → str_eq s t ≡ str_eq t s
str_eq_comm s t = ground (arith, eq_iff s t, eq_iff t s)

pub occurrences_of_absent :
    (g : String) (names : List String) → has_key g names ≡ false → occurrences g names ≡ 0
occurrences_of_absent g [] h = refl
occurrences_of_absent g (x ∷ xs) h = ground (arith, occurrences_of_absent g xs)

pub occurrences_pos :
    (g : String) (names : List String) → has_key g names ≡ true → 0 < occurrences g names
occurrences_pos g [] h = cc
occurrences_pos g (x ∷ xs) h = ground (arith, occurrences_pos g xs)

independent_running-zero : (names : List String) → independent_running (λ _. 0) names ≡ 0
unfolding independent_running
independent_running-zero [] = refl
independent_running-zero (n ∷ names) = omega (arith, independent_running-zero names)

independent_running-add :
    (r s : String → ℕ) (names : List String)
    → independent_running (λ g. r g + s g) names
      ≡ independent_running r names + independent_running s names
unfolding independent_running
independent_running-add r s [] = omega arith
independent_running-add r s (n ∷ names) = omega (arith, independent_running-add r s names)

-- A job's group, counted over names.
pub independent_running_of :
    (d : JobDefinition) (names : List String)
    → independent_running (λ g. in_group g d) names ≡ occurrences d.concurrency_group names
unfolding independent_running
independent_running_of d [] = refl
independent_running_of d (n ∷ names) =
    ground (arith, str_eq_comm d.concurrency_group n, independent_running_of d names)

-- The running jobs are those of the independent groups and those that share the limit.
pub total_split :
    (names : List String) (defs : ℕ → JobDefinition) (l : List ℕ)
    → ((g : String) → occurrences g names ≤ 1)
    → total one defs l
      ≡ total (sharing names) defs l + independent_running (λ g. total (in_group g) defs l) names
total_split names defs [] distinct = omega (arith, independent_running-zero names)
total_split names defs (x ∷ xs) distinct =
    let group = (defs x).concurrency_group in
    ground (
      arith,
      independent_running-add (λ g. in_group g (defs x)) (λ g. total (in_group g) defs xs) names,
      independent_running_of (defs x) names,
      total_split names defs xs distinct,
      distinct group,
      occurrences_pos group names,
      occurrences_of_absent group names,
    )
