-- ===== src/Job/Reach/Maximal.antt =====
-- `dispatchLocked` of internal/job/manager.go starts every job that can run.
use mahiron.Prelude.{
  ℕ, zero, suc, ◌+◌, ◌≤◌, ◌≡◌, ap, ◌∙◌, Bool, some, true, false, not, ◌&&◌, List, [], ◌∷◌, ltb, inl,
  inr, Bool-cases, Option-cases, length, arith,
}
use mahiron.Job.{Manager}
use mahiron.Job.Queue.{runnable, remove, pop_runnable}
use mahiron.Job.Run.{start_job, dispatch_loop, dispatch}
use mahiron.Job.Api.{has_id}
use mahiron.Job.Reach.Started.{after_start, HasStarted, HasStarted-none, HasStarted-more}
use mahiron.Job.Pick.{pop_runnable_lem, pop_runnable-none}

length-remove : (id : ℕ) (l : List ℕ) → has_id id l ≡ true → length (remove id l) + 1 ≡ length l
unfolding remove
length-remove id [] h = cc
length-remove id (x ∷ xs) h = ground (arith, length-remove id xs)

absent_of_empty : (l : List ℕ) (j : ℕ) → length l ≡ 0 → has_id j l ≡ true → (b : Bool) → b ≡ false
absent_of_empty [] j e h b = cc
absent_of_empty (x ∷ xs) j e h b = absurd (omega (arith, e))

-- Of a state: no queued job could start.
abbrev pub IsMaximal : Manager → Type 0
IsMaximal m = (j : ℕ) → has_id j m.queue ≡ true → runnable m j ≡ false

-- What the loop leaves: some of the queued jobs have started, and no other one could.
abbrev Dispatches : ℕ → Manager → Manager → Type 0
Dispatches now m m' = (ids : List ℕ) × HasStarted now ids m m' × IsMaximal m'

loop-Dispatches :
    (fuel : ℕ) (m : Manager) (now : ℕ)
    → length m.queue ≤ fuel
    → m.shut_down ≡ false
    → Dispatches now m (dispatch_loop fuel m now)
unfolding dispatch_loop start_job
loop-Dispatches zero m now enough up = (
  [],
  HasStarted-none now m,
  λ j h. absent_of_empty m.queue j (omega (arith, enough)) h (runnable m j),
)
loop-Dispatches (suc fuel) m now enough up =
    elim (Bool-cases (ltb 0 (length m.queue) && not m.shut_down)) [
      | inl more ↦ elim (Option-cases (pop_runnable m)) [
        | inl nothing ↦
            rw (more, nothing, dispatch_loop)
              ([], HasStarted-none now m, pop_runnable-none m nothing)
        | inr ((id, m'), found) ↦
            let (runs, there, first, _, same) = pop_runnable_lem m id m' found in
            let found' = found ∙ ap (λ (x : Manager). some (id, x)) same in
            let shorter : length (remove id m.queue) ≤ fuel =
              omega (arith, enough, length-remove id m.queue there) in
            let (ids, started, maximal) =
              loop-Dispatches fuel (after_start m id now) now shorter up in
            rw (more, found', dispatch_loop)
              (id ∷ ids, HasStarted-more now id ids m _ there runs first started, maximal)
      ]
      | inr done ↦
          let empty : length m.queue ≡ 0 = ground (arith, done, up) in
          rw (done, dispatch_loop)
            ([], HasStarted-none now m, λ j h. absent_of_empty m.queue j empty h (runnable m j))
    ]

-- Unless the manager is shut down, a dispatch starts some of the queued jobs, one after the other:
-- each could run when its turn came, and no queued job that could run was more urgent. Just these
-- left the queue, are in front of the active jobs, are counted and are running since then; no other
-- job and no entry of the history has changed. After it no job that is still queued could run: the
-- fuel is enough.
pub dispatch_lem :
    (m : Manager) (now : ℕ)
    → m.shut_down ≡ false
    → (ids : List ℕ) × HasStarted now ids m (dispatch m now) × IsMaximal (dispatch m now)
unfolding dispatch
dispatch_lem m now up = loop-Dispatches (length m.queue) m now (omega arith) up
