-- ===== src/Job/Keys/Calls.antt =====
-- The operations of internal/job/manager.go keep the lists and the keys tidy: calls from outside.
use mahiron.Prelude.{
  ℕ, ◌≡◌, refl, sym, ap, ◌∙◌, subst, String, Bool, true, false, not, ◌&&◌, some, [], ◌∷◌, ◌++◌,
  ==_refl, inl, inr, Bool-cases, Option-cases, length, if◌then◌else◌, arith,
}
use mahiron.Prelude.Maps.{put, put_self}
use mahiron.Job.{Manager, Job, JobDefinition, standby, finished}
use mahiron.Job.Queue.{remove}
use mahiron.Job.Run.{is_status, set_job, trim_history, dispatch}
use mahiron.Job.Api.{
  Answer, has_id, new_job, is_invalid, context_canceled, add_job, enqueue_definition, enqueue,
  abort_pending, abort_active, abort, rerun,
}
use mahiron.Job.Keys.{view, has_status, is_live, queued_apart, standby_apart}
use mahiron.Job.Keys.Lists.{has_id-times, times-remove, trim_loop_keeps}
use mahiron.Job.Keys.Updates.{trimmed-IsTidy, touched-IsTidy}
use mahiron.Job.Keys.Begins.{added-IsTidy}
use mahiron.Job.Keys.Steps.{
  Tidy, shrunk-IsTidy, not_queued_of, not_active_of, dispatch-Tidy, finish-Tidy,
}

if_Tidy :
    (b : Bool) (x y : Answer) → Tidy x.0 → (b ≡ false → Tidy y.0) → Tidy (if b then x else y).0
if_Tidy true x y p q = p
if_Tidy false x y p q = q refl

add_job-Tidy :
    (m : Manager) (d : JobDefinition) (id now : ℕ)
    → has_id id m.history ≡ false
    → m.active_keys d.key ≡ false
    → Tidy m
    → Tidy (add_job m d id now)
unfolding add_job trim_history
add_job-Tidy m d id now fresh free t =
    trimmed-IsTidy _ _
      (λ i.
        trim_loop_keeps (put m.jobs id (new_job d now)) i (length (m.history ++ (id ∷ [])))
          m.max_history (m.history ++ (id ∷ [])))
      (added-IsTidy (view m) id (new_job d now) t fresh free refl)

pub enqueue_definition-Tidy :
    (m : Manager) (d : JobDefinition) (id now : ℕ)
    → has_id id m.history ≡ false
    → Tidy m
    → Tidy (enqueue_definition m d id now).0
unfolding enqueue_definition
enqueue_definition-Tidy m d id now fresh t =
    if_Tidy m.shut_down (m, _) _ t
      λ up.
        if_Tidy (is_invalid m d) (m, _) _ t
          λ good.
            if_Tidy (m.active_keys d.key) (m, _) (dispatch (add_job m d id now) now, _) t
              λ free. dispatch-Tidy (add_job m d id now) now (add_job-Tidy m d id now fresh free t)

pub enqueue-Tidy :
    (m : Manager) (key : String) (id now : ℕ)
    → has_id id m.history ≡ false
    → Tidy m
    → Tidy (enqueue m key id now).0
unfolding enqueue
enqueue-Tidy m key id now fresh t = elim (Option-cases (m.definitions key)) [
  | inl unknown ↦ rw (unknown, enqueue) t
  | inr (d, known) ↦ rw (known, enqueue) (enqueue_definition-Tidy m d id now fresh t)
]

pub rerun-Tidy :
    (m : Manager) (id new_id now : ℕ)
    → has_id new_id m.history ≡ false
    → Tidy m
    → Tidy (rerun m id new_id now).0
unfolding rerun
rerun-Tidy m id new_id now fresh t =
    if_Tidy (not (has_id id m.history)) (m, _) _ t
      λ known.
        if_Tidy (not (m.jobs id).definition.is_rerunnable) (m, _) _ t
          λ again. enqueue_definition-Tidy m (m.jobs id).definition new_id now fresh t

pub abort_pending-Tidy :
    (m : Manager) (id now : ℕ)
    → (has_status (view m) finished id ≡ false → is_live (view m) id ≡ true)
    → has_id id m.queue ≡ false
    → has_id id m.active ≡ false
    → Tidy m
    → Tidy (abort_pending m id now)
unfolding abort_pending
abort_pending-Tidy m id now live off idle t =
    let j : Job = record (m.jobs id) { is_aborting = true } in
    finish-Tidy (set_job m id j) id (some context_canceled) true now
      (subst
        (λ (k : Job).
          is_status k.status finished ≡ false
          → (has_id id m.history && not (is_status k.status finished)) ≡ true)
        (sym (put_self m.jobs id j)) live)
      off idle (touched-IsTidy (view m) id j refl refl t)

abort_active-Tidy : (m : Manager) (id now : ℕ) → Tidy m → Tidy (abort_active m id now)
unfolding abort_active
abort_active-Tidy m id now t = elim (Bool-cases (has_id id m.history)) [
  | inl known ↦ rw (known, abort_active) (touched-IsTidy (view m) id _ refl refl t)
  | inr unknown ↦ rw (unknown, abort_active) t
]

abort_queued-Tidy :
    (m : Manager) (id now : ℕ)
    → has_id id m.queue ≡ true
    → Tidy m
    → Tidy (abort_pending (record m { queue = remove id m.queue }) id now)
abort_queued-Tidy m id now there t =
    let (_, idle, _) = queued_apart (m.jobs id).status (t.queue_queued id there) in
    abort_pending-Tidy (record m { queue = remove id m.queue }) id now (λ _. t.queue_live id there)
      (ground (
        arith,
        has_id-times id (remove id m.queue),
        times-remove id id m.queue,
        t.queued_once id,
        ==_refl id,
      ))
      (not_active_of (view m) id t idle)
      (shrunk-IsTidy (view m) (remove id m.queue) m.active
        (λ i. ground (arith, times-remove id i m.queue)) (λ i. omega arith) t)

pub abort_standby-Tidy :
    (m : Manager) (id now : ℕ)
    → has_status (view m) standby id ≡ true
    → Tidy m
    → Tidy (abort_pending m id now)
abort_standby-Tidy m id now waits t =
    let (_, idle, off) = standby_apart (m.jobs id).status waits in
    abort_pending-Tidy m id now (λ _. t.standby_live id waits) (not_queued_of (view m) id t off)
      (not_active_of (view m) id t idle) t

pub abort-Tidy : (m : Manager) (id now : ℕ) → Tidy m → Tidy (abort m id now).0
unfolding abort
abort-Tidy m id now t =
    let waits = has_id id m.history && is_status (m.jobs id).status standby in
    let j : Job = record (m.jobs id) { has_aborted = true } in
    elim (Bool-cases (has_id id m.active)) [
      | inl runs ↦ rw (runs, abort) (abort_active-Tidy m id now t)
      | inr idle ↦ elim (Bool-cases (has_id id m.queue)) [
        | inl listed ↦ rw (idle, listed, abort) (abort_queued-Tidy m id now listed t)
        | inr unlisted ↦ elim (Bool-cases waits) [
          | inl later ↦
              let status : is_status (m.jobs id).status standby ≡ true = ground (arith, later) in
              rw (idle, unlisted, later, abort)
                (abort_standby-Tidy (set_job m id j) id now
                  (ap (λ (k : Job). is_status k.status standby) (put_self m.jobs id j) ∙ status)
                  (touched-IsTidy (view m) id j refl refl t))
          | inr over ↦ rw (idle, unlisted, over, abort) t
        ]
      ]
    ]
