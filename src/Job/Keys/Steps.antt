-- ===== src/Job/Keys/Steps.antt =====
-- The operations of internal/job/manager.go keep the lists and the keys tidy: a job's own course.
use mahiron.Prelude.{
  ℕ, zero, suc, ◌≤◌, ◌≡◌, refl, sym, subst, Bool, true, false, not, ◌&&◌, ◌||◌, Option, none, some,
  List, [], ◌∷◌, ◌++◌, ltb, ==_refl, inl, inr, Bool-cases, Option-cases, length, arith,
}
use mahiron.Prelude.Maps.{put}
use mahiron.Job.{Manager, Job, RunError, queued, standby, job_running, finished}
use mahiron.Job.Queue.{remove, pop_runnable}
use mahiron.Job.Run.{
  is_status, start_job, complete_active, dispatch_loop, dispatch, finished_job, finish,
  trim_history, should_retry, to_standby, after_run, run_returned, retry_to_queue, timer_fired,
}
use mahiron.Job.Api.{has_id}
use mahiron.Job.Pick.{pop_runnable_lem}
use mahiron.Job.Keys.{
  View, view, times, has_status, is_live, IsTidy, queued_apart, standby_apart, running_apart,
}
use mahiron.Job.Keys.Lists.{has_id-times, times-remove, times-append, trim_loop_keeps}
use mahiron.Job.Keys.Updates.{trimmed-IsTidy, changed-IsTidy}
use mahiron.Job.Keys.Ends.{ended-IsTidy}

abbrev pub Tidy : Manager → Type 0
Tidy m = IsTidy (view m)

-- Jobs leave the queue and the active ones.
pub shrunk-IsTidy :
    (v : View) (queue active : List ℕ)
    → ((i : ℕ) → times i queue ≤ times i v.queue)
    → ((i : ℕ) → times i active ≤ times i v.active)
    → IsTidy v
    → IsTidy (record v { queue = queue; active = active })
shrunk-IsTidy v queue active q a t =
    let in_queue : (i : ℕ) → has_id i queue ≡ true → has_id i v.queue ≡ true =
      λ i h. ground (arith, q i, has_id-times i queue, has_id-times i v.queue, h) in
    let in_active : (i : ℕ) → has_id i active ≡ true → has_id i v.active ≡ true =
      λ i h. ground (arith, a i, has_id-times i active, has_id-times i v.active, h) in
    record {
      queued_once = λ i. omega (arith, q i, t.queued_once i);
      active_once = λ i. omega (arith, a i, t.active_once i);
      queue_queued = λ i h. t.queue_queued i (in_queue i h);
      queue_live = λ i h. t.queue_live i (in_queue i h);
      active_running = λ i h. t.active_running i (in_active i h);
      active_live = λ i h. t.active_live i (in_active i h);
      standby_live = t.standby_live;
      live_busy = t.live_busy;
      busy_live = t.busy_live;
      one_live = t.one_live;
    }

-- Where a job is not, by its status.
pub not_queued_of :
    (v : View) (id : ℕ) → IsTidy v → has_status v queued id ≡ false → has_id id v.queue ≡ false
not_queued_of v id t h = ground (arith, t.queue_queued id, h)

pub not_active_of :
    (v : View) (id : ℕ)
    → IsTidy v
    → has_status v job_running id ≡ false
    → has_id id v.active ≡ false
not_active_of v id t h = ground (arith, t.active_running id, h)

start_popped-Tidy :
    (m : Manager) (id now : ℕ)
    → has_id id m.queue ≡ true
    → Tidy m
    → Tidy (start_job (record m { queue = remove id m.queue }) id now)
unfolding start_job
start_popped-Tidy m id now there t =
    let (going, idle, _) = queued_apart (m.jobs id).status (t.queue_queued id there) in
    let j : Job = record (m.jobs id) {
      status = job_running;
      started_at = some now;
      updated_at = now;
    } in
    changed-IsTidy (view m) id j (remove id m.queue) (id ∷ m.active) (t.queue_live id there) refl
      refl (λ i e. ground (arith, times-remove id i m.queue, e)) (λ i e. ground (arith, e))
      (ground (arith, times-remove id id m.queue, t.queued_once id, ==_refl id))
      (ground (arith, ==_refl id, has_id-times id m.active, not_active_of (view m) id t idle)) t

pub dispatch_loop-Tidy :
    (fuel : ℕ) (m : Manager) (now : ℕ) → Tidy m → Tidy (dispatch_loop fuel m now)
unfolding dispatch_loop
dispatch_loop-Tidy zero m now t = t
dispatch_loop-Tidy (suc fuel) m now t =
    elim (Bool-cases (ltb 0 (length m.queue) && not m.shut_down)) [
      | inl more ↦ elim (Option-cases (pop_runnable m)) [
        | inl nothing ↦ rw (more, nothing, dispatch_loop) t
        | inr ((id, m'), found) ↦
            let (_, there, _, _, same) = pop_runnable_lem m id m' found in
            rw (more, found, dispatch_loop)
              (dispatch_loop-Tidy fuel (start_job m' id now) now (
                subst (λ x. Tidy (start_job x id now)) (sym same)
                  (start_popped-Tidy m id now there t)))
      ]
      | inr done ↦ rw (done, dispatch_loop) t
    ]

pub dispatch-Tidy : (m : Manager) (now : ℕ) → Tidy m → Tidy (dispatch m now)
unfolding dispatch
dispatch-Tidy m now t = dispatch_loop-Tidy (length m.queue) m now t

pub finish-Tidy :
    (m : Manager) (id : ℕ) (err : Option RunError) (aborted : Bool) (now : ℕ)
    → (has_status (view m) finished id ≡ false → is_live (view m) id ≡ true)
    → has_id id m.queue ≡ false
    → has_id id m.active ≡ false
    → Tidy m
    → Tidy (finish m id err aborted now)
unfolding finish trim_history finished_job
finish-Tidy m id err aborted now live off idle t =
    let done = finished_job (m.jobs id) err aborted now in
    elim (Bool-cases (is_status (m.jobs id).status finished)) [
      | inl over ↦ rw (over, finish) t
      | inr going ↦
          let ends = ended-IsTidy (view m) id done refl t (live going) off idle refl in
          rw (going, finish)
            (trimmed-IsTidy _ _
              (λ i.
                trim_loop_keeps (put m.jobs id done) i (length m.history) m.max_history m.history)
              ends)
    ]

after_run-Tidy :
    (m : Manager) (id : ℕ) (err : Option RunError) (now : ℕ)
    → has_status (view m) job_running id ≡ true
    → is_live (view m) id ≡ true
    → has_id id m.active ≡ false
    → Tidy m
    → Tidy (after_run m id err now)
unfolding after_run to_standby
after_run-Tidy m id none now runs live idle t =
    let (_, _, off) = running_apart (m.jobs id).status runs in
    finish-Tidy m id none (m.jobs id).has_aborted now (λ _. live) (not_queued_of (view m) id t off)
      idle t
after_run-Tidy m id (some err) now runs live idle t =
    let (_, _, off) = running_apart (m.jobs id).status runs in
    let off_queue = not_queued_of (view m) id t off in
    elim (Bool-cases (not (m.jobs id).has_aborted && should_retry m (m.jobs id) err)) [
      | inl again ↦
          rw (again, after_run)
            (changed-IsTidy (view m) id _ m.queue m.active live refl refl (λ i e. refl)
              (λ i e. refl) (ground (arith, has_id-times id m.queue, off_queue))
              (ground (arith, has_id-times id m.active, idle)) t)
      | inr over ↦
          rw (over, after_run)
            (finish-Tidy m id (some err) (m.jobs id).has_aborted now (λ _. live) off_queue idle t)
    ]

pub run_returned-Tidy :
    (m : Manager) (id : ℕ) (err : Option RunError) (now : ℕ)
    → has_id id m.active ≡ true
    → Tidy m
    → Tidy (run_returned m id err now)
unfolding run_returned complete_active
run_returned-Tidy m id err now there t =
    let left =
      shrunk-IsTidy (view m) m.queue (remove id m.active) (λ i. omega arith)
        (λ i. ground (arith, times-remove id i m.active)) t in
    let gone : has_id id (remove id m.active) ≡ false = ground (
      arith,
      has_id-times id (remove id m.active),
      times-remove id id m.active,
      t.active_once id,
      ==_refl id,
    ) in
    dispatch-Tidy (after_run (complete_active m id) id err now) now (
      after_run-Tidy (complete_active m id) id err now (t.active_running id there)
        (t.active_live id there) gone left)

pub timer_fired-Tidy : (m : Manager) (id now : ℕ) → Tidy m → Tidy (timer_fired m id now)
unfolding timer_fired retry_to_queue
timer_fired-Tidy m id now t =
    let cond =
      not (is_status (m.jobs id).status standby) || (m.jobs id).has_aborted || m.shut_down in
    elim (Bool-cases cond) [
      | inl nothing ↦ rw (nothing, timer_fired) t
      | inr due ↦
          let waits : has_status (view m) standby id ≡ true = ground (arith, due) in
          let (_, idle, off) = standby_apart (m.jobs id).status waits in
          let j : Job = record (m.jobs id) {
            status = queued;
            updated_at = now;
            next_run_at = none;
          } in
          rw (due, timer_fired)
            (dispatch-Tidy (retry_to_queue m id now) now (
              changed-IsTidy (view m) id j (m.queue ++ (id ∷ [])) m.active (t.standby_live id waits)
                refl refl (λ i e. ground (arith, times-append id i m.queue, e)) (λ i e. refl)
                (ground (
                  arith,
                  times-append id id m.queue,
                  has_id-times id m.queue,
                  not_queued_of (view m) id t off,
                ))
                (ground (arith, has_id-times id m.active, not_active_of (view m) id t idle)) t))
    ]
