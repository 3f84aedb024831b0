-- ===== src/Tests/Tables.antt =====
-- internal/isdb/isdb.go, run.
use mahiron.Prelude.{
  ℕ, ◌≤◌, ◌≡◌, ◌↔◌, ◌||◌, refl, Bool, true, false, some, List, [], ◌∷◌, ◌==◌, arith,
}
use mahiron.Isdb.{SectionHeader}
use mahiron.Isdb.Tables.{TableTracker, new_tracker, ready, missing, add_all}
use mahiron.Isdb.Tables.Ready.{absent, missing_lem}
use mahiron.Isdb.Tables.Complete.{Carries, seen, ready-add_all}

abbrev header : ℕ → Bool → SectionHeader
header n now = record {
  table_id_extension = 1024;
  version = 3;
  section_number = n;
  last_section_number = 2;
  current_next = now;
  last_table_id = 0;
  segment_last_section = 2;
}

abbrev later_sections : List SectionHeader
later_sections = header 0 true ∷ header 2 true ∷ header 1 true ∷ []

in_any_order : ready (add_all new_tracker (header 2 true ∷ later_sections)) ≡ some true
unfolding add_all new_tracker ready
in_any_order = refl

-- Sections 0 and 2 of 0 to 2.
abbrev two_of_three : TableTracker
two_of_three = record {
  initialized = true;
  extension = 1024;
  version = 3;
  last = 2;
  sections = λ i. i == 0 || i == 2;
}

one_missing : missing two_of_three ≡ some (1 ∷ [])
unfolding missing
one_missing = refl

missing_lem_example :
    (missing two_of_three ≡ some (absent two_of_three.sections 0 3))
    × ((missing two_of_three ≡ some []) ↔ (ready two_of_three ≡ some true))
missing_lem_example = missing_lem two_of_three (omega arith) refl

carries : (n : ℕ) → n ≤ 2 → Carries 1024 3 2 (header n true)
carries n le = record {
  same_extension = refl;
  same_version = refl;
  same_last = refl;
  inside = le;
  applicable = refl;
}

ready-add_all_example :
    (ready (add_all new_tracker (header 2 true ∷ later_sections)) ≡ some true)
    ↔ ((i : ℕ) → i ≤ 2 → seen (header 2 true ∷ later_sections) i ≡ true)
unfolding new_tracker
ready-add_all_example =
    ready-add_all 1024 3 2 new_tracker (header 2 true) later_sections (omega arith) refl (
      carries 2 (omega arith),
      (carries 0 (omega arith), (carries 2 (omega arith), (carries 1 (omega arith), tt))),
    )

-- Section 1 of the next version, which is not applicable yet, and one past its last number.
abbrev among_others : List SectionHeader
among_others =
    record (header 1 false) { version = 4 }
    ∷ header 2 true
    ∷ record (header 5 true) { version = 9 }
    ∷ later_sections

ready_among_them : ready (add_all new_tracker among_others) ≡ some true
unfolding add_all new_tracker ready
ready_among_them = refl
