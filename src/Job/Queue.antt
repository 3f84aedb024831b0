-- ===== src/Job/Queue.antt =====
-- internal/job/manager.go: which queued job runs next.
use text.Mathlib.Text.{◌==◌ as str_eq}
use mahiron.Prelude.{
  ℕ, ◌+◌, String, Bool, true, false, not, ◌&&◌, ◌||◌, Option, none, some, List, [], ◌∷◌, ltb, leb,
  ◌==◌, if◌then◌else◌,
}
use mahiron.Prelude.Int.{ltb_ℤ}
use mahiron.Prelude.Keys.{has_key, any_key, all_keys}
use mahiron.Job.{JobDefinition, Manager}

abbrev pub definition_of : Manager → ℕ → JobDefinition
definition_of m id = (m.jobs id).definition

-- The running jobs of the groups that do not share the limit.
abbrev pub independent_running : (String → ℕ) → List String → ℕ
independent_running running [] = 0
independent_running running (name ∷ names) = running name + independent_running running names

-- `!m.independentGroups[group] && sharedRunning >= m.maxConcurrent`
unfoldable pub shared_full : Manager → JobDefinition → Bool
shared_full m d =
    not (has_key d.concurrency_group m.independent)
    && leb (m.max_concurrent + independent_running m.group_running m.independent) m.running

-- `limit <= 0 || m.groupRunning[group] >= limit`
unfoldable pub group_full : Manager → JobDefinition → Bool
group_full m d =
    let group = d.concurrency_group in
    let limit = if str_eq group "" then m.max_concurrent else m.group_limits group in
    limit == 0 || leb limit (m.group_running group)

unfoldable pub dependencies_satisfied : Manager → JobDefinition → Bool
dependencies_satisfied m d =
    all_keys (λ key. not (m.active_keys key)) d.depends_on
    && all_keys (λ key. not (m.active_exclusive_keys key || ltb 0 (m.active_shared_keys key)))
        d.exclusive_keys
    && all_keys (λ key. not (m.active_exclusive_keys key)) d.shared_keys

-- One round of `blockedByWriterLocked`.
unfoldable pub writer_blocks : Manager → ℕ → ℕ → Bool
writer_blocks m item writer =
    let w = definition_of m writer in
    not (writer == item)
    && all_keys (λ key. not (m.active_keys key)) w.depends_on
    && any_key (λ key. has_key key (definition_of m item).shared_keys) w.exclusive_keys

unfoldable pub blocked_by_writer : Manager → List ℕ → ℕ → Bool
unfolding writer_blocks
blocked_by_writer m [] item = false
blocked_by_writer m (w ∷ ws) item = writer_blocks m item w || blocked_by_writer m ws item

-- The conditions of `popRunnableQueueLocked` on one queued job.
unfoldable pub runnable : Manager → ℕ → Bool
runnable m item =
    not (shared_full m (definition_of m item))
    && not (group_full m (definition_of m item))
    && not (blocked_by_writer m m.queue item)
    && dependencies_satisfied m (definition_of m item)

-- `selected < 0 || item.definition.Priority > m.queue[selected].definition.Priority`
abbrev pub precedes : Manager → ℕ → Option ℕ → Bool
precedes m item none = true
precedes m item (some selected) =
    ltb_ℤ (definition_of m selected).priority (definition_of m item).priority

-- The loop of `popRunnableQueueLocked`.
unfoldable pub select : Manager → List ℕ → Option ℕ → Option ℕ
select m [] selected = selected
select m (item ∷ items) selected =
    select m items (if runnable m item && precedes m item selected then some item else selected)

-- The list without the first entry of a job. The queue holds a job once, so that the entry is the
-- one at the selected index.
unfoldable pub remove : ℕ → List ℕ → List ℕ
remove id [] = []
remove id (x ∷ xs) = if x == id then xs else x ∷ remove id xs

unfoldable pub pop_runnable : Manager → Option (ℕ × Manager)
unfolding select remove
pop_runnable m = elim (select m m.queue none) [
  | none ↦ none
  | some id ↦ some (id, record m { queue = remove id m.queue })
]
