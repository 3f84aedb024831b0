-- ===== src/Isdb/Tables/Ready.antt =====
-- `Ready` and `Missing` of internal/isdb/isdb.go end, and say the same.
use mahiron.Prelude.{
  ℕ, zero, suc, ◌+◌, ◌%◌, ◌≤◌, ◌<◌, ◌≡◌, ◌↔◌, ◌⊎◌, refl, sym, ap, ◌∙◌, subst, inl, inr, Bool, true,
  false, not, some, List, [], ◌∷◌, ◌++◌, append-nil, append_assoc, ◌==◌, if◌then◌else◌, ==→eq,
  Bool-cases, arith,
}
use mahiron.Isdb.Tables.{TableTracker, ready_loop, ready, missing_loop, missing}

-- Every section number up to the last has arrived.
abbrev pub AllSeen : TableTracker → Type 0
AllSeen t = (i : ℕ) → i ≤ t.last → t.sections i ≡ true

from_next : (i j : ℕ) (p : ℕ → Bool) → p i ≡ true → i ≤ j → (i + 1 ≤ j → p j ≡ true) → p j ≡ true
from_next i j p here lo later = elim (Bool-cases (i == j)) [
  | inl same ↦ subst (λ k. p k ≡ true) (==→eq i j same) here
  | inr apart ↦ later (ground arith)
]

ready_loop_lem :
    (fuel : ℕ) (t : TableTracker) (i : ℕ)
    → t.last < 256
    → i ≤ t.last
    → t.last < fuel + i
    → ((ready_loop fuel t i ≡ some true) × ((j : ℕ) → i ≤ j → j ≤ t.last → t.sections j ≡ true))
      ⊎ ((ready_loop fuel t i ≡ some false)
          × (j : ℕ) × (i ≤ j)
          × (j ≤ t.last)
          × (t.sections j ≡ false))
unfolding ready_loop
ready_loop_lem zero t i w le lt = absurd (omega arith)
ready_loop_lem (suc fuel) t i w le lt = elim (Bool-cases (t.sections i)) [
  | inr absent ↦ inr (rw absent, i, omega arith, le, absent)
  | inl here ↦ elim (Bool-cases (i == t.last)) [
    | inl at_end ↦ inl (
      rw (here, at_end),
      λ j lo hi. let e : i ≡ j = omega (arith, ==→eq i t.last at_end) in rw (← e) here,
    )
    | inr before ↦
        let lt' : i < t.last = ground arith in
        let e : (i + 1) % 256 ≡ i + 1 = omega arith in
        elim (ready_loop_lem fuel t (i + 1) w (omega arith) (omega arith)) [
          | inl (r, all) ↦ inl (
            rw (here, before, e) r,
            λ j lo hi. from_next i j t.sections here lo (λ le'. all j le' hi),
          )
          | inr (r, j, lo, hi, absent) ↦ inr (rw (here, before, e) r, j, omega arith, hi, absent)
        ]
  ]
]

pub ready_cases :
    (t : TableTracker)
    → t.last < 256
    → t.initialized ≡ true
    → ((ready t ≡ some true) × AllSeen t)
      ⊎ ((ready t ≡ some false) × (j : ℕ) × (j ≤ t.last) × (t.sections j ≡ false))
unfolding ready
ready_cases t w on = elim (ready_loop_lem 256 t 0 w (omega arith) (omega arith)) [
  | inl (r, all) ↦ inl (rw on r, λ i le. all i (omega arith) le)
  | inr (r, j, lo, hi, absent) ↦ inr (rw on r, j, hi, absent)
]

pub ready_iff_AllSeen :
    (t : TableTracker) → t.last < 256 → t.initialized ≡ true → (ready t ≡ some true) ↔ AllSeen t
ready_iff_AllSeen t w on = elim (ready_cases t w on) [
  | inl (r, all) ↦ (λ _. all, λ _. r)
  | inr (r, j, hi, absent) ↦ (λ r'. cc, λ all. let h = all j hi in cc)
]

-- The absent section numbers of `n`, from `i` on.
abbrev pub absent : (ℕ → Bool) → ℕ → ℕ → List ℕ
absent p i zero = []
absent p i (suc n) = (if p i then [] else i ∷ []) ++ absent p (i + 1) n

collect :
    (seen : Bool) (out rest : List ℕ) (i : ℕ)
    → (if not seen then out ++ (i ∷ []) else out) ++ rest
      ≡ out ++ ((if seen then [] else i ∷ []) ++ rest)
collect true out rest i = refl
collect false out rest i = append_assoc out (i ∷ []) rest

missing_loop_lem :
    (fuel : ℕ) (t : TableTracker) (i n : ℕ) (out : List ℕ)
    → t.last < 256
    → i + n ≡ t.last
    → n < fuel
    → missing_loop fuel t i out ≡ some (out ++ absent t.sections i (suc n))
unfolding missing_loop
missing_loop_lem zero t i n out w e lt = absurd (omega arith)
missing_loop_lem (suc fuel) t i zero out w e lt =
    let at_end : (i == t.last) ≡ true = ground arith in
    rw at_end (ap some (sym (append-nil _) ∙ collect (t.sections i) out [] i))
missing_loop_lem (suc fuel) t i (suc n) out w e lt =
    let before : (i == t.last) ≡ false = ground arith in
    let next : (i + 1) % 256 ≡ i + 1 = omega arith in
    rw (before, next)
      (missing_loop_lem fuel t (i + 1) n _ w (omega arith) (omega arith)
        ∙ ap some (collect (t.sections i) out (absent t.sections (i + 1) (suc n)) i))

absent-empty :
    (p : ℕ → Bool) (i n : ℕ) → absent p i n ≡ [] → (j : ℕ) → i ≤ j → j < i + n → p j ≡ true
absent-empty p i zero e j lo hi = absurd (omega arith)
absent-empty p i (suc n) e j lo hi = elim (Bool-cases (p i)) [
  | inl here ↦
      from_next i j p here lo λ le. absent-empty p (i + 1) n (rw here at e) j le (omega arith)
  | inr away ↦ let e' : i ∷ absent p (i + 1) n ≡ [] = rw away at e in cc
]

absent-nil :
    (p : ℕ → Bool) (i n : ℕ) → ((j : ℕ) → i ≤ j → j < i + n → p j ≡ true) → absent p i n ≡ []
absent-nil p i zero all = refl
absent-nil p i (suc n) all =
    rw (all i (omega arith) (omega arith))
      (absent-nil p (i + 1) n λ j lo hi. all j (omega arith) (omega arith))

-- On a tracker that has met a table, `Missing` returns the absent section numbers up to the last
-- one, in ascending order, and it returns none of them exactly if `Ready` says true.
pub missing_lem :
    (t : TableTracker)
    → t.last < 256
    → t.initialized ≡ true
    → (missing t ≡ some (absent t.sections 0 (suc t.last)))
      × ((missing t ≡ some []) ↔ (ready t ≡ some true))
unfolding missing
missing_lem t w on = (
  listed,
  (
    λ e. (ready_iff_AllSeen t w on).1 λ i le.
        absent-empty t.sections 0 (suc t.last) (cc (sym listed ∙ e)) i (omega arith) (omega arith),
    λ r.
        listed
        ∙ ap some (
            absent-nil t.sections 0 (suc t.last)
              λ j lo hi. (ready_iff_AllSeen t w on).0 r j (omega arith)),
  ),
)
  where
    listed : missing t ≡ some (absent t.sections 0 (suc t.last))
    listed = rw on (missing_loop_lem 256 t 0 t.last [] w (omega arith) (omega arith))
