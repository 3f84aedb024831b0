-- ===== src/Isdb/ReadyGroup/Missing.antt =====
-- `missingSections` and `ready` of internal/isdb/schedule.go tell the same story.
use mahiron.Prelude.{
  every_below_intro, ℕ, zero, suc, ◌+◌, ◌≤◌, ◌<◌, ◌≡◌, ◌↔◌, refl, subst, inl, inr, Bool, true, List,
  [], ◌∷◌, ◌++◌, ◌==◌, ==→eq, Bool-cases, every_below, every_below-at, every_below_intro, arith,
}
use mahiron.Isdb.ReadyGroup.{
  ReadyFlag, ReadyGroup, full, covered, ready, missing_bits, missing_segments, missing_sections,
}
use mahiron.Isdb.ReadyGroup.Marks.{full_bit}

append-empty {ℓ} : {A : Type ℓ} (xs ys : List A) → xs ++ ys ≡ [] → (xs ≡ []) × (ys ≡ [])
append-empty [] ys e = (refl, e)
append-empty (x ∷ xs) ys e = cc

-- To prove a claim of all indexes from `i` on, prove it of `i` and of those after it.
from_here : (i j : ℕ) (p : ℕ → Bool) → p i ≡ true → i ≤ j → (i + 1 ≤ j → p j ≡ true) → p j ≡ true
from_here i j p here le later = elim (Bool-cases (i == j)) [
  | inl same ↦ subst (λ k. p k ≡ true) (==→eq i j same) here
  | inr other ↦ later (ground arith)
]

missing_bits-empty :
    (f : ReadyFlag) (seg n bit : ℕ)
    → (missing_bits f seg n bit ≡ []) ↔ ((k : ℕ) → bit ≤ k → k < bit + n → covered f seg k ≡ true)
unfolding missing_bits
missing_bits-empty f seg zero bit = (λ e k lo hi. absurd (omega arith), λ all. refl)
missing_bits-empty f seg (suc n) bit =
    let rest = missing_bits-empty f seg n (bit + 1) in
    (
      λ e k lo hi. elim (Bool-cases (covered f seg bit)) [
        | inl here ↦
            from_here bit k (covered f seg) here lo λ le. rest.0 (rw here at e) k le (omega arith)
        | inr not_here ↦ let e' = rw not_here at e in cc
      ],
      λ all.
          rw (all bit (omega arith) (omega arith))
            (rest.1 λ k lo hi. all k (omega arith) (omega arith)),
    )

missing_segments-empty :
    (f : ReadyFlag) (n seg : ℕ)
    → (missing_segments f n seg ≡ [])
      ↔ ((j : ℕ) → seg ≤ j → j < seg + n → full (covered f j) ≡ true)
unfolding missing_segments
missing_segments-empty f zero seg = (λ e j lo hi. absurd (omega arith), λ all. refl)
missing_segments-empty f (suc n) seg =
    let bits = missing_bits-empty f seg 8 0 in
    let rest = missing_segments-empty f n (seg + 1) in
    (
      λ e j lo hi.
          let (e₁, e₂) = append-empty (missing_bits f seg 8 0) (missing_segments f n (seg + 1)) e in
          from_here seg j (λ l. full (covered f l))
            (every_below_intro 8 (covered f seg) λ k lt. bits.0 e₁ k (omega arith) (omega arith)) lo
            (λ le. rest.0 e₂ j le (omega arith)),
      λ all.
          let none_here : missing_bits f seg 8 0 ≡ [] = bits.1 λ k lo hi.
            full_bit (covered f seg) k (all seg (omega arith) (omega arith)) (omega arith) in
          rw none_here (rest.1 λ j lo hi. all j (omega arith) (omega arith)),
    )

-- A group is ready exactly if none of its eight tables has a missing section.
pub ready_iff_missing :
    (g : ReadyGroup) → (ready g ≡ true) ↔ ((i : ℕ) → i < 8 → missing_sections g i ≡ [])
unfolding ready missing_sections
ready_iff_missing g = (
  λ r i lt. (missing_segments-empty (g.flags i) 32 0).1 λ j lo hi.
      every_below-at 32 (λ l. full (covered (g.flags i) l)) j
        (every_below-at 8 (λ l. every_below 32 λ m. full (covered (g.flags l) m)) i r lt)
        (omega arith),
  λ all.
      every_below_intro 8 (λ l. every_below 32 λ m. full (covered (g.flags l) m))
        λ i lt.
          every_below_intro 32 (λ l. full (covered (g.flags i) l))
            λ j hi.
              (missing_segments-empty (g.flags i) 32 0).0 (all i lt) j (omega arith) (omega arith),
)
