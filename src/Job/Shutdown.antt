-- ===== src/Job/Shutdown.antt =====
-- internal/job/manager.go: `Shutdown`, with the slice that its loop shares with `trimHistory`.
use mahiron.Prelude.{
  ℕ, zero, suc, true, false, none, some, List, [], ◌∷◌, ◌++◌, ltb, length, get_or,
}
use mahiron.Job.{Manager, Job, standby}
use mahiron.Job.Run.{is_status, remove_finished}
use mahiron.Job.Api.{abort_pending}

-- `m.shutdownCancel()`.
unfoldable pub begin_shutdown : Manager → Manager
begin_shutdown m = record m { shut_down = true }

-- The loop over the copy of the queue.
unfoldable pub abort_each : Manager → List ℕ → ℕ → Manager
abort_each m [] now = m
abort_each m (item ∷ items) now = abort_each (abort_pending m item now) items now

-- `m.history` is the front of an array; `tail` is what stands in the array behind it.
-- `append(m.history[:i], m.history[i+1:]...)` moves the later entries one place to the front, and
-- leaves the last place as it was.
abbrev pub last_or : List ℕ → ℕ → ℕ
last_or [] otherwise = otherwise
last_or (x ∷ xs) otherwise = last_or xs x

unfoldable pub trim_tail : ℕ → (ℕ → Job) → ℕ → List ℕ → List ℕ → List ℕ
trim_tail zero jobs bound history tail = tail
trim_tail (suc fuel) jobs bound history tail = elim (ltb bound (length history)) [
  | false ↦ tail
  | true ↦ elim (remove_finished jobs history) [
    | none ↦ tail
    | some history' ↦ trim_tail fuel jobs bound history' (last_or history 0 ∷ tail)
  ]
]

-- The loop over `m.history`, from an index on: `range` keeps the array and the length that the
-- history had at first, and reads each place when the loop reaches it. The fuel is the number of
-- places that are left.
unfoldable pub abort_standby_from : ℕ → ℕ → Manager → List ℕ → ℕ → Manager
unfolding abort_pending trim_tail
abort_standby_from zero index m tail now = m
abort_standby_from (suc fuel) index m tail now =
    let item = get_or (m.history ++ tail) index 0 in
    let m' = abort_pending m item now in
    let tail' = trim_tail (length m.history) m'.jobs m.max_history m.history tail in
    elim (is_status (m.jobs item).status standby) [
      | true ↦ abort_standby_from fuel (suc index) m' tail' now
      | false ↦ abort_standby_from fuel (suc index) m tail now
    ]

-- `abortQueuedAndStandbyLocked`.
unfoldable pub abort_queued_and_standby : Manager → ℕ → Manager
unfolding abort_each abort_standby_from
abort_queued_and_standby m now =
    let m₁ = abort_each (record m { queue = [] }) m.queue now in
    abort_standby_from (length m₁.history) 0 m₁ [] now
