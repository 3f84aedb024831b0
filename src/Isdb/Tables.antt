-- ===== src/Isdb/Tables.antt =====
-- `TableTracker` of internal/isdb/isdb.go: the sections of one table version.
use mahiron.Prelude.{
  ℕ, zero, suc, ◌+◌, ◌%◌, Bool, true, false, not, ◌&&◌, ◌||◌, Option, none, some, List, [], ◌∷◌,
  ◌++◌, ltb, ◌==◌, if◌then◌else◌,
}
use mahiron.Prelude.Maps.{put}
use mahiron.Isdb.{SectionHeader}
pub mod Ready
pub mod Complete

-- A nil map of sections reads as an empty one.
pub record TableTracker : Type 0 where
  pub initialized : Bool
  pub extension : ℕ
  pub version : ℕ
  pub last : ℕ
  pub sections : ℕ → Bool

unfoldable pub new_tracker : TableTracker
new_tracker = record {
  initialized = false;
  extension = 0;
  version = 0;
  last = 0;
  sections = λ _. false;
}

-- The loop of `Ready`, on fuel, with its uint8 counter; `none` means that the fuel ran out.
unfoldable pub ready_loop : ℕ → TableTracker → ℕ → Option Bool
ready_loop zero t i = none
ready_loop (suc fuel) t i =
    let next = ready_loop fuel t ((i + 1) % 256) in
    if not (t.sections i) then some false else if i == t.last then some true else next

unfoldable pub ready : TableTracker → Option Bool
unfolding ready_loop
ready t = if not t.initialized then some false else ready_loop 256 t 0

-- The loop of `Missing`.
unfoldable pub missing_loop : ℕ → TableTracker → ℕ → List ℕ → Option (List ℕ)
missing_loop zero t i out = none
missing_loop (suc fuel) t i out =
    let out' = if not (t.sections i) then out ++ (i ∷ []) else out in
    let next = missing_loop fuel t ((i + 1) % 256) out' in if i == t.last then some out' else next

unfoldable pub missing : TableTracker → Option (List ℕ)
unfolding missing_loop
missing t = if not t.initialized then some [] else missing_loop 256 t 0 []

-- The state that `Add` leaves, and whether it was reset.
unfoldable pub record_section : TableTracker → SectionHeader → TableTracker × Bool
record_section t h =
    if ltb h.last_section_number h.section_number
    then (t, false)
    else if not h.current_next
    then (t, false)
    else if not t.initialized
        || not (t.extension == h.table_id_extension)
        || not (t.version == h.version)
    then (
      record {
        initialized = true;
        extension = h.table_id_extension;
        version = h.version;
        last = h.last_section_number;
        sections = put (λ _. false) h.section_number true;
      },
      true,
    )
    else (record t { sections = put t.sections h.section_number true }, false)

-- The new state, `reset`, and the answer of `Ready`.
unfoldable pub add : TableTracker → SectionHeader → TableTracker × Bool × Option Bool
unfolding record_section ready
add t h = let (t', reset) = record_section t h in (t', reset, ready t')

unfoldable pub add_all : TableTracker → List SectionHeader → TableTracker
unfolding add
add_all t [] = t
add_all t (h ∷ hs) = add_all (add t h).0 hs
