-- ===== src/Job/Keys/Down.antt =====
-- The shutdown of internal/job/manager.go keeps the lists and the keys tidy.
use mahiron.Prelude.{
  ℕ, zero, suc, ◌≡◌, refl, ap, ◌∙◌, Bool, true, false, not, ◌&&◌, Option, some, List, [], ◌∷◌, ◌++◌,
  ==_refl, inl, inr, Bool-cases, length, get_or, arith,
}
use mahiron.Prelude.Maps.{put}
use mahiron.Job.{Manager, Job, RunError, standby, finished}
use mahiron.Job.Run.{is_status, set_job, finished_job, finish, trim_history}
use mahiron.Job.Api.{has_id, context_canceled, abort_pending}
use mahiron.Job.Shutdown.{abort_each, abort_standby_from, abort_queued_and_standby}
use mahiron.Job.Keys.{view, has_status, is_live, queued_apart}
use mahiron.Job.Keys.Lists.{trim_loop_keeps}
use mahiron.Job.Keys.Updates.{at_put}
use mahiron.Job.Keys.Steps.{Tidy, shrunk-IsTidy, not_active_of}
use mahiron.Job.Keys.Calls.{abort_pending-Tidy, abort_standby-Tidy}

-- What is live in `m`, and has not ended in `m'`, is live there.
abbrev Spared : Manager → Manager → Type 0
Spared m m' =
    (i : ℕ)
    → has_status (view m') finished i ≡ false
    → (has_status (view m) finished i ≡ false)
      × (is_live (view m) i ≡ true → is_live (view m') i ≡ true)

Spared-trans : (m m' m'' : Manager) → Spared m m' → Spared m' m'' → Spared m m''
Spared-trans m m' m'' s s' i h =
    let (h', l') = s' i h in let (h'', l) = s i h' in (h'', λ x. l' (l x))

-- A job that ends is written over, and the others are as they were.
not_over_before :
    (jobs : ℕ → Job) (id : ℕ) (j : Job)
    → is_status j.status finished ≡ true
    → (i : ℕ) → is_status (put jobs id j i).status finished ≡ false
    → is_status (jobs i).status finished ≡ false
not_over_before jobs id j over =
    at_put (λ i k. is_status k.status finished ≡ false → is_status (jobs i).status finished ≡ false)
      jobs id j (λ h. ground (arith, over, h)) (λ i e h. h)

finish_spares :
    (m : Manager) (id : ℕ) (err : Option RunError) (aborted : Bool) (now : ℕ)
    → Spared m (finish m id err aborted now)
      × ((finish m id err aborted now).active ≡ m.active)
      × ((finish m id err aborted now).queue ≡ m.queue)
unfolding finish trim_history finished_job
finish_spares m id err aborted now = elim (Bool-cases (is_status (m.jobs id).status finished)) [
  | inl over ↦ rw (over, finish) (λ i h. (h, λ l. l), refl, refl)
  | inr going ↦
      let done = finished_job (m.jobs id) err aborted now in
      rw (going, finish)
        (
          λ i h.
              let (sub, keep) =
                trim_loop_keeps (put m.jobs id done) i (length m.history) m.max_history m.history in
              (not_over_before m.jobs id done refl i h, λ l. ground (arith, l, h, keep h)),
          refl,
          refl,
        )
]

abort_pending_spares :
    (m : Manager) (id now : ℕ)
    → Spared m (abort_pending m id now)
      × ((abort_pending m id now).active ≡ m.active)
      × ((abort_pending m id now).queue ≡ m.queue)
unfolding abort_pending
abort_pending_spares m id now =
    let j : Job = record (m.jobs id) { is_aborting = true } in
    let (s, a, q) = finish_spares (set_job m id j) id (some context_canceled) true now in
    let first : Spared m (set_job m id j) =
      at_put
        (λ i k.
          is_status k.status finished ≡ false
          → (is_status (m.jobs i).status finished ≡ false)
            × (is_live (view m) i ≡ true
                → (has_id i m.history && not (is_status k.status finished)) ≡ true))
        m.jobs id j (λ h. (h, λ l. l)) (λ i e h. (h, λ l. l)) in
    (Spared-trans m (set_job m id j) (abort_pending m id now) first s, a, q)

-- The jobs that are still to be aborted have ended, or are live.
abbrev Pending : Manager → List ℕ → Type 0
Pending m items =
    (i : ℕ)
    → has_id i items ≡ true
    → (has_status (view m) finished i ≡ false → is_live (view m) i ≡ true)
      × (has_id i m.active ≡ false)

abort_each-Tidy :
    (items : List ℕ) (m : Manager) (now : ℕ)
    → m.queue ≡ []
    → Pending m items
    → Tidy m
    → Tidy (abort_each m items now)
unfolding abort_each
abort_each-Tidy [] m now empty p t = t
abort_each-Tidy (x ∷ xs) m now empty p t =
    let (live, idle) = p x (ground (arith, ==_refl x)) in
    let (spared, a, q) = abort_pending_spares m x now in
    let off : has_id x m.queue ≡ false = ap (has_id x) empty in
    abort_each-Tidy xs (abort_pending m x now) now (q ∙ empty)
      (λ i h.
        let (l, d) = p i (ground (arith, h)) in
        (λ o. let (o', k) = spared i o in k (l o'), ap (has_id i) a ∙ d))
      (abort_pending-Tidy m x now live off idle t)

abort_standby_from-Tidy :
    (fuel index : ℕ) (m : Manager) (tail : List ℕ) (now : ℕ)
    → Tidy m
    → Tidy (abort_standby_from fuel index m tail now)
unfolding abort_standby_from
abort_standby_from-Tidy zero index m tail now t = t
abort_standby_from-Tidy (suc fuel) index m tail now t =
    let item = get_or (m.history ++ tail) index 0 in
    elim (Bool-cases (is_status (m.jobs item).status standby)) [
      | inl waits ↦
          rw (waits, abort_standby_from)
            (abort_standby_from-Tidy fuel (suc index) (abort_pending m item now) _ now
              (abort_standby-Tidy m item now waits t))
      | inr other ↦
          rw (other, abort_standby_from) (abort_standby_from-Tidy fuel (suc index) m tail now t)
    ]

pub abort_queued_and_standby-Tidy :
    (m : Manager) (now : ℕ) → Tidy m → Tidy (abort_queued_and_standby m now)
unfolding abort_queued_and_standby
abort_queued_and_standby-Tidy m now t =
    let emptied = record m { queue = [] } in
    let queued_items : Pending emptied m.queue = λ i h.
      let (_, idle, _) = queued_apart (m.jobs i).status (t.queue_queued i h) in
      (λ o. t.queue_live i h, not_active_of (view m) i t idle) in
    abort_standby_from-Tidy _ 0 (abort_each emptied m.queue now) [] now (
      abort_each-Tidy m.queue emptied now refl queued_items
        (shrunk-IsTidy (view m) [] m.active (λ i. omega arith) (λ i. omega arith) t))
