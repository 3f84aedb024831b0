-- ===== src/Job/Load/Steps.antt =====
-- A dispatch, a run that returns and a retry of internal/job/manager.go keep the running jobs consistent.
use mahiron.Prelude.{
  ℕ, zero, suc, ◌≡◌, refl, sym, ap, ◌∙◌, subst, Bool, true, false, not, ◌&&◌, ◌||◌, Option, none,
  some, List, [], ◌∷◌, ltb, inl, inr, Bool-cases, Option-cases, length, arith,
}
use mahiron.Prelude.Maps.{put}
use mahiron.Job.{Manager, Job, JobDefinition, RunError, job_running, standby, finished}
use mahiron.Job.Queue.{
  definition_of, runnable, shared_full, group_full, dependencies_satisfied, pop_runnable, remove,
}
use mahiron.Job.Run.{
  set_job, start_job, complete_active, dispatch_loop, dispatch, finish, trim_history, finished_job,
  to_standby, after_run, run_returned, retry_to_queue, timer_fired, should_retry, is_status,
}
use mahiron.Job.Api.{has_id}
use mahiron.Job.Pick.{pop_runnable_lem}
use mahiron.Job.Load.{Load, load, total, IsConsistent, one, in_group, shares, holds, reads, sharing}
use mahiron.Job.Load.Start.{started, started-IsConsistent, completed-IsConsistent}

-- The definitions in a store, where one job is written.
total_kept :
    (f : JobDefinition → ℕ) (jobs : ℕ → Job) (id : ℕ) (j : Job) (l : List ℕ)
    → j.definition ≡ (jobs id).definition
    → total f (λ i. (put jobs id j i).definition) l ≡ total f (λ i. (jobs i).definition) l
total_kept f jobs id j [] e = refl
total_kept f jobs id j (x ∷ xs) e = ground (arith, total_kept f jobs id j xs e)

pub total_fresh :
    (f : JobDefinition → ℕ) (jobs : ℕ → Job) (id : ℕ) (j : Job) (l : List ℕ)
    → has_id id l ≡ false
    → total f (λ i. (put jobs id j i).definition) l ≡ total f (λ i. (jobs i).definition) l
total_fresh f jobs id j [] e = refl
total_fresh f jobs id j (x ∷ xs) e = ground (arith, total_fresh f jobs id j xs)

-- Only the definitions of active jobs matter.
pub retotal :
    (l : Load) (defs : ℕ → JobDefinition)
    → ((f : JobDefinition → ℕ) → total f defs l.active ≡ total f l.defs l.active)
    → IsConsistent l
    → IsConsistent (record l { defs = defs })
retotal l defs same c = record {
  counted = c.counted ∙ sym (same one);
  groups_counted = λ g. c.groups_counted g ∙ sym (same (in_group g));
  shared_counted = λ k. c.shared_counted k ∙ sym (same (shares k));
  exclusive_counted = λ k. c.exclusive_counted k ∙ ap (ltb 0) (sym (same (holds k)));
  one_holder = λ k. omega (arith, c.one_holder k, same (holds k));
  no_reader = λ k h. omega (arith, c.no_reader k, same (holds k), same (reads k));
  group_within = λ g. omega (arith, c.group_within g, same (in_group g));
  sharing_within = omega (arith, c.sharing_within, same (sharing l.independent));
  distinct = c.distinct;
}

abbrev pub Runs : Manager → Type 0
Runs m = IsConsistent (load m)

-- A write to a job that keeps its definition.
pub set_job-Runs :
    (m : Manager) (id : ℕ) (j : Job)
    → j.definition ≡ definition_of m id
    → Runs m
    → Runs (set_job m id j)
set_job-Runs m id j e c =
    retotal (load m) (definition_of (set_job m id j)) (λ f. total_kept f m.jobs id j m.active e) c

-- The queue is not part of what is consistent, but `runnable` reads it.
abbrev pub with_queue : Manager → List ℕ → Manager
with_queue m q = record m { queue = q }

-- Taking a job from the queue never closes the room for it.
room_kept :
    (m : Manager) (id : ℕ) (q : List ℕ)
    → runnable m id ≡ true
    → (shared_full (with_queue m q) (definition_of m id) ≡ false)
      × (group_full (with_queue m q) (definition_of m id) ≡ false)
      × (dependencies_satisfied (with_queue m q) (definition_of m id) ≡ true)
unfolding runnable shared_full group_full dependencies_satisfied
room_kept m id q r = (ground (arith, r), ground (arith, r), ground (arith, r))

start_popped-Runs :
    (m : Manager) (id now : ℕ) (q : List ℕ)
    → runnable m id ≡ true
    → Runs m
    → Runs (start_job (with_queue m q) id now)
unfolding start_job
start_popped-Runs m id now q r c =
    let j : Job = record (m.jobs id) {
      status = job_running;
      started_at = some now;
      updated_at = now;
    } in
    let (room, group_room, free) = room_kept m id q r in
    retotal (started (load m) id) (definition_of (start_job (with_queue m q) id now))
      (λ f. total_kept f m.jobs id j (id ∷ m.active) refl)
      (started-IsConsistent (with_queue m q) id c room group_room free)

pub dispatch_loop-Runs :
    (fuel : ℕ) (m : Manager) (now : ℕ) → Runs m → Runs (dispatch_loop fuel m now)
unfolding dispatch_loop
dispatch_loop-Runs zero m now c = c
dispatch_loop-Runs (suc fuel) m now c =
    elim (Bool-cases (ltb 0 (length m.queue) && not m.shut_down)) [
      | inl more ↦ elim (Option-cases (pop_runnable m)) [
        | inl nothing ↦ rw (more, nothing, dispatch_loop) c
        | inr ((id, m'), found) ↦
            let (r, _, _, _, same) = pop_runnable_lem m id m' found in
            rw (more, found, dispatch_loop)
              (dispatch_loop-Runs fuel (start_job m' id now) now (
                subst (λ x. Runs (start_job x id now)) (sym same)
                  (start_popped-Runs m id now (remove id m.queue) r c)))
      ]
      | inr done ↦ rw (done, dispatch_loop) c
    ]

pub dispatch-Runs : (m : Manager) (now : ℕ) → Runs m → Runs (dispatch m now)
unfolding dispatch
dispatch-Runs m now c = dispatch_loop-Runs (length m.queue) m now c

pub complete_active-Runs :
    (m : Manager) (id : ℕ) → has_id id m.active ≡ true → Runs m → Runs (complete_active m id)
unfolding complete_active
complete_active-Runs m id there c = completed-IsConsistent m id c there

pub finish-Runs :
    (m : Manager) (id : ℕ) (err : Option RunError) (aborted : Bool) (now : ℕ)
    → Runs m
    → Runs (finish m id err aborted now)
unfolding finish trim_history finished_job
finish-Runs m id err aborted now c =
    let done = finished_job (m.jobs id) err aborted now in
    elim (Bool-cases (is_status (m.jobs id).status finished)) [
      | inl over ↦ rw (over, finish) c
      | inr live ↦
          rw (live, finish)
            (retotal (load m) (λ i. (put m.jobs id done i).definition)
              (λ f. total_kept f m.jobs id done m.active refl) c)
    ]

to_standby-Runs :
    (m : Manager) (id : ℕ) (err : RunError) (now : ℕ) → Runs m → Runs (to_standby m id err now)
unfolding to_standby
to_standby-Runs m id err now c = set_job-Runs m id _ refl c

after_run-Runs :
    (m : Manager) (id : ℕ) (err : Option RunError) (now : ℕ)
    → Runs m
    → Runs (after_run m id err now)
unfolding after_run
after_run-Runs m id none now c = finish-Runs m id none (m.jobs id).has_aborted now c
after_run-Runs m id (some err) now c =
    elim (Bool-cases (not (m.jobs id).has_aborted && should_retry m (m.jobs id) err)) [
      | inl again ↦ rw (again, after_run) (to_standby-Runs m id err now c)
      | inr over ↦ rw (over, after_run) (finish-Runs m id (some err) (m.jobs id).has_aborted now c)
    ]

pub run_returned-Runs :
    (m : Manager) (id : ℕ) (err : Option RunError) (now : ℕ)
    → has_id id m.active ≡ true
    → Runs m
    → Runs (run_returned m id err now)
unfolding run_returned
run_returned-Runs m id err now there c =
    let left = complete_active-Runs m id there c in
    dispatch-Runs (after_run (complete_active m id) id err now) now
      (after_run-Runs (complete_active m id) id err now left)

retry_to_queue-Runs : (m : Manager) (id now : ℕ) → Runs m → Runs (retry_to_queue m id now)
unfolding retry_to_queue
retry_to_queue-Runs m id now c = set_job-Runs m id _ refl c

pub timer_fired-Runs : (m : Manager) (id now : ℕ) → Runs m → Runs (timer_fired m id now)
unfolding timer_fired
timer_fired-Runs m id now c =
    let cond =
      not (is_status (m.jobs id).status standby) || (m.jobs id).has_aborted || m.shut_down in
    elim (Bool-cases cond) [
      | inl nothing ↦ rw (nothing, timer_fired) c
      | inr due ↦
          rw (due, timer_fired)
            (dispatch-Runs (retry_to_queue m id now) now (retry_to_queue-Runs m id now c))
    ]
