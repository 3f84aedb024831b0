-- ===== src/Job/Load/Calls.antt =====
-- The calls of the API of internal/job/manager.go keep the running jobs consistent.
use mahiron.Prelude.{
  ℕ, ◌≡◌, refl, Bool, true, false, not, ◌&&◌, some, inl, inr, Bool-cases, Option-cases,
  if◌then◌else◌, String,
}
use mahiron.Job.{Manager, Job, JobDefinition, standby}
use mahiron.Job.Queue.{definition_of, remove}
use mahiron.Job.Run.{set_job, dispatch, trim_history, is_status}
use mahiron.Job.Api.{
  Answer, has_id, new_job, is_invalid, context_canceled, add_job, enqueue_definition, enqueue,
  abort_pending, abort_active, abort, rerun,
}
use mahiron.Job.Load.{load}
use mahiron.Job.Load.Steps.{
  Runs, set_job-Runs, retotal, total_fresh, with_queue, dispatch-Runs, finish-Runs,
}

add_job-Runs :
    (m : Manager) (d : JobDefinition) (id now : ℕ)
    → has_id id m.active ≡ false
    → Runs m
    → Runs (add_job m d id now)
unfolding add_job trim_history
add_job-Runs m d id now fresh c =
    retotal (load m) (definition_of (add_job m d id now))
      (λ f. total_fresh f m.jobs id (new_job d now) m.active fresh) c

if_Runs : (b : Bool) (x y : Answer) → Runs x.0 → Runs y.0 → Runs (if b then x else y).0
if_Runs true x y p q = p
if_Runs false x y p q = q

pub enqueue_definition-Runs :
    (m : Manager) (d : JobDefinition) (id now : ℕ)
    → has_id id m.active ≡ false
    → Runs m
    → Runs (enqueue_definition m d id now).0
unfolding enqueue_definition
enqueue_definition-Runs m d id now fresh c =
    let queued = dispatch-Runs (add_job m d id now) now (add_job-Runs m d id now fresh c) in
    if_Runs m.shut_down (m, _) _ c
      (if_Runs (is_invalid m d) (m, _) _ c
        (if_Runs (m.active_keys d.key) (m, _) (dispatch (add_job m d id now) now, _) c queued))

pub enqueue-Runs :
    (m : Manager) (key : String) (id now : ℕ)
    → has_id id m.active ≡ false
    → Runs m
    → Runs (enqueue m key id now).0
unfolding enqueue
enqueue-Runs m key id now fresh c = elim (Option-cases (m.definitions key)) [
  | inl unknown ↦ rw (unknown, enqueue) c
  | inr (d, known) ↦ rw (known, enqueue) (enqueue_definition-Runs m d id now fresh c)
]

pub rerun-Runs :
    (m : Manager) (id new_id now : ℕ)
    → has_id new_id m.active ≡ false
    → Runs m
    → Runs (rerun m id new_id now).0
unfolding rerun
rerun-Runs m id new_id now fresh c = elim (Bool-cases (not (has_id id m.history))) [
  | inl unknown ↦ rw (unknown, rerun) c
  | inr known ↦ elim (Bool-cases (not (m.jobs id).definition.is_rerunnable)) [
    | inl once ↦ rw (known, once, rerun) c
    | inr again ↦
        rw (known, again, rerun)
          (enqueue_definition-Runs m (m.jobs id).definition new_id now fresh c)
  ]
]

pub abort_pending-Runs : (m : Manager) (id now : ℕ) → Runs m → Runs (abort_pending m id now)
unfolding abort_pending
abort_pending-Runs m id now c =
    let j : Job = record (m.jobs id) { is_aborting = true } in
    finish-Runs (set_job m id j) id (some context_canceled) true now (set_job-Runs m id j refl c)

abort_active-Runs : (m : Manager) (id now : ℕ) → Runs m → Runs (abort_active m id now)
unfolding abort_active
abort_active-Runs m id now c = elim (Bool-cases (has_id id m.history)) [
  | inl known ↦ rw (known, abort_active) (set_job-Runs m id _ refl c)
  | inr unknown ↦ rw (unknown, abort_active) c
]

pub abort-Runs : (m : Manager) (id now : ℕ) → Runs m → Runs (abort m id now).0
unfolding abort
abort-Runs m id now c =
    let waits = has_id id m.history && is_status (m.jobs id).status standby in
    let j : Job = record (m.jobs id) { has_aborted = true } in
    elim (Bool-cases (has_id id m.active)) [
      | inl runs ↦ rw (runs, abort) (abort_active-Runs m id now c)
      | inr idle ↦ elim (Bool-cases (has_id id m.queue)) [
        | inl listed ↦
            rw (idle, listed, abort)
              (abort_pending-Runs (with_queue m (remove id m.queue)) id now c)
        | inr unlisted ↦ elim (Bool-cases waits) [
          | inl later ↦
              rw (idle, unlisted, later, abort)
                (abort_pending-Runs (set_job m id j) id now (set_job-Runs m id j refl c))
          | inr over ↦ rw (idle, unlisted, over, abort) c
        ]
      ]
    ]
