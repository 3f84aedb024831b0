-- ===== src/Isdb/Tables/Complete.antt =====
-- A table is ready once all of its sections were added, in whatever order (internal/isdb/isdb.go).
use mahiron.Prelude.{
  ℕ, ◌≤◌, ◌<◌, ◌≡◌, ◌↔◌, refl, if◌then◌else◌, Bool, true, false, not, ◌&&◌, ◌||◌, some, List, [],
  ◌∷◌, ltb, ◌==◌, arith,
}
use mahiron.Isdb.{SectionHeader}
use mahiron.Isdb.Tables.{TableTracker, ready, add, add_all}
use mahiron.Isdb.Tables.Ready.{ready_iff_AllSeen}

-- A header of the table version at hand, as a well-formed section carries it.
pub record Carries (extension version last : ℕ) (h : SectionHeader) : Type 0 where
  pub same_extension : h.table_id_extension ≡ extension
  pub same_version : h.version ≡ version
  pub same_last : h.last_section_number ≡ last
  pub inside : h.section_number ≤ last
  pub applicable : h.current_next ≡ true

abbrev pub AllCarry : ℕ → ℕ → ℕ → List SectionHeader → Type 0
AllCarry e v l [] = Unit {0}
AllCarry e v l (h ∷ hs) = Carries e v l h × AllCarry e v l hs

-- Some header of the list is of section `i`.
abbrev pub seen : List SectionHeader → ℕ → Bool
seen [] i = false
seen (h ∷ hs) i = h.section_number == i || seen hs i

record Current (e v l : ℕ) (t : TableTracker) : Type 0 where
  on : t.initialized ≡ true
  same_extension : t.extension ≡ e
  same_version : t.version ≡ v
  same_last : t.last ≡ l

-- Within one version sections only gather.
add-Current :
    (e v l : ℕ) (t : TableTracker) (h : SectionHeader)
    → Current e v l t
    → Carries e v l h
    → Current e v l (add t h).0
      × ((i : ℕ) → (add t h).0.sections i ≡ (h.section_number == i || t.sections i))
unfolding add
add-Current e v l t h c k = (ground arith, λ i. ground arith)

-- The first section of another version starts over.
add_first :
    (e v l : ℕ) (t : TableTracker) (h : SectionHeader)
    → (t.initialized && (t.extension == e) && (t.version == v)) ≡ false
    → Carries e v l h
    → Current e v l (add t h).0
      × ((i : ℕ) → (add t h).0.sections i ≡ (h.section_number == i || false))
unfolding add
add_first e v l t h stale k = (ground arith, λ i. ground arith)

add_all-Current :
    (e v l : ℕ) (t : TableTracker) (hs : List SectionHeader)
    → Current e v l t
    → AllCarry e v l hs
    → Current e v l (add_all t hs)
      × ((i : ℕ) → (add_all t hs).sections i ≡ (seen hs i || t.sections i))
unfolding add_all
add_all-Current e v l t [] c k = (c, λ i. refl)
add_all-Current e v l t (h ∷ hs) c (k, ks) =
    let (c', now) = add-Current e v l t h c k in
    let (c'', later) = add_all-Current e v l (add t h).0 hs c' ks in
    (c'', λ i. ground (arith, now i, later i))

-- After the sections of one table version, of which the first made the tracker start over, `Ready`
-- says true exactly if every section number up to the last was among them, in any order and with
-- any repetition; it answers in every case.
pub ready-add_all :
    (e v l : ℕ) (t : TableTracker) (h : SectionHeader) (hs : List SectionHeader)
    → l < 256
    → (t.initialized && (t.extension == e) && (t.version == v)) ≡ false
    → AllCarry e v l (h ∷ hs)
    → (ready (add_all t (h ∷ hs)) ≡ some true) ↔ ((i : ℕ) → i ≤ l → seen (h ∷ hs) i ≡ true)
unfolding add_all
ready-add_all e v l t h hs w stale (k, ks) =
    let (c, now) = add_first e v l t h stale k in
    let (c', later) = add_all-Current e v l (add t h).0 hs c ks in
    let iff = ready_iff_AllSeen (add_all (add t h).0 hs) (omega (arith, c'.same_last)) c'.on in
    (
      λ r i le. ground (arith, iff.0 r i (omega (arith, c'.same_last)), now i, later i),
      λ all. iff.1 λ i le. ground (arith, all i (omega (arith, c'.same_last)), now i, later i),
    )

-- The sections that are applicable, and whose numbers are not past the last one.
abbrev pub counts : SectionHeader → Bool
counts h = h.current_next && not (ltb h.last_section_number h.section_number)

abbrev pub counted : List SectionHeader → List SectionHeader
counted [] = []
counted (h ∷ hs) = let rest = counted hs in if counts h then h ∷ rest else rest
