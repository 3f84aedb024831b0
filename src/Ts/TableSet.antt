-- ===== src/Ts/TableSet.antt =====
-- ts/demux.go: `tableSectionSet`, the sections of a table.
use mahiron.Prelude.{
  ℕ, zero, suc, ◌+◌, Bool, true, false, not, ◌&&◌, ◌||◌, Option, none, some, List, [], ◌∷◌, ltb,
  ◌==◌, if◌then◌else◌,
}
use mahiron.Prelude.Maps.{put}
use mahiron.Ts.Sections.{Section}
use mahiron.Ts.Psi.{parse_section_header}

-- The sections of one version of a table, by number.
pub record TableSectionSet : Type 0 where
  pub initialized : Bool
  pub extension : ℕ
  pub version : ℕ
  pub last : ℕ
  pub sections : ℕ → Option Section

abbrev pub is_some {ℓ} : {A : Type ℓ} → Option A → Bool
is_some none = false
is_some (some a) = true

-- That the numbers from `number` on, `count` of them, are there.
unfoldable pub all_present : (ℕ → Option Section) → ℕ → ℕ → Bool
all_present sections number zero = true
all_present sections number (suc count) =
    is_some (sections number) && all_present sections (number + 1) count

-- `reset`, `ready` and the set. Every number in the map is at most `last`, so the test of its size
-- says no more than the loop after it.
unfoldable pub add_section : TableSectionSet → Section → Bool × Bool × TableSectionSet
unfolding all_present parse_section_header
add_section s section = elim (parse_section_header section) [
  | none ↦ (false, false, s)
  | some h ↦
      let resets =
        not s.initialized
        || not (s.extension == h.transport_stream_id)
        || not (s.version == h.version_number)
        || not (s.last == h.last_section_number) in
      let sections =
        put (if resets then (λ n. none) else s.sections) h.section_number (some section) in
      if not h.current_next_indicator || ltb h.last_section_number h.section_number
      then (false, false, s)
      else (
        resets,
        all_present sections 0 (h.last_section_number + 1),
        record {
          initialized = true;
          extension = h.transport_stream_id;
          version = h.version_number;
          last = h.last_section_number;
          sections = sections;
        },
      )
]

-- The sections from `number` on, `count` of them; a missing one reads as nil.
unfoldable pub ordered_from : (ℕ → Option Section) → ℕ → ℕ → List Section
ordered_from sections number zero = []
ordered_from sections number (suc count) =
    elim (sections number) [ none ↦ [] | some s ↦ s ] ∷ ordered_from sections (number + 1) count

unfoldable pub ordered : TableSectionSet → List Section
unfolding ordered_from
ordered s = ordered_from s.sections 0 (s.last + 1)

abbrev pub new_section_set : TableSectionSet
new_section_set = record {
  initialized = false;
  extension = 0;
  version = 0;
  last = 0;
  sections = λ n. none;
}
