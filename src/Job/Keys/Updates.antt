-- ===== src/Job/Keys/Updates.antt =====
-- internal/job/manager.go: the writes to jobs, lists and keys that keep a view tidy.
use mahiron.Prelude.{
  ℕ, ◌≤◌, ◌≡◌, refl, sym, ap, ◌∙◌, subst, String, Bool, true, false, not, ◌&&◌, List, ◌==◌, ==→eq,
  inl, inr, Bool-cases, if◌then◌else◌, arith,
}
use mahiron.Prelude.Maps.{put}
use mahiron.Job.{Job, queued, standby, job_running, finished}
use mahiron.Job.Run.{is_status}
use mahiron.Job.Api.{has_id}
use mahiron.Job.Keys.{View, times, has_status, is_live, IsTidy}
use mahiron.Job.Keys.Lists.{has_id-times, Kept}

-- The history may lose jobs that have ended.
pub trimmed-IsTidy :
    (v : View) (history : List ℕ)
    → ((id : ℕ) → Kept v.jobs id v.history history)
    → IsTidy v
    → IsTidy (record v { history = history })
trimmed-IsTidy v history kept t = record {
  queued_once = t.queued_once;
  active_once = t.active_once;
  queue_queued = t.queue_queued;
  queue_live = λ id h. ground (arith, t.queue_live id h, (kept id).1);
  active_running = t.active_running;
  active_live = λ id h. ground (arith, t.active_live id h, (kept id).1);
  standby_live = λ id h. ground (arith, t.standby_live id h, (kept id).1);
  live_busy = λ id h. ground (arith, t.live_busy id, (kept id).0);
  busy_live = λ key h.
      let (id, live, same) = t.busy_live key h in (id, ground (arith, live, (kept id).1), same);
  one_live = λ i j li lj. t.one_live i j (ground (arith, (kept i).0)) (ground (arith, (kept j).0));
}

-- The jobs, the queue and the active jobs change, but not which jobs are live, nor their keys.
record IsPlaced (v v' : View) : Type 0 where
  keys : (id : ℕ) → (v'.jobs id).key ≡ (v.jobs id).key
  lives : (id : ℕ) → is_live v' id ≡ is_live v id
  busy : v'.busy ≡ v.busy
  queued_once : (id : ℕ) → times id v'.queue ≤ 1
  active_once : (id : ℕ) → times id v'.active ≤ 1
  queue_queued : (id : ℕ) → has_id id v'.queue ≡ true → has_status v' queued id ≡ true
  queue_live : (id : ℕ) → has_id id v'.queue ≡ true → is_live v id ≡ true
  active_running : (id : ℕ) → has_id id v'.active ≡ true → has_status v' job_running id ≡ true
  active_live : (id : ℕ) → has_id id v'.active ≡ true → is_live v id ≡ true
  standby_live : (id : ℕ) → has_status v' standby id ≡ true → is_live v id ≡ true

placed-IsTidy : (v v' : View) → IsPlaced v v' → IsTidy v → IsTidy v'
placed-IsTidy v v' p t = record {
  queued_once = p.queued_once;
  active_once = p.active_once;
  queue_queued = p.queue_queued;
  queue_live = λ id h. p.lives id ∙ p.queue_live id h;
  active_running = p.active_running;
  active_live = λ id h. p.lives id ∙ p.active_live id h;
  standby_live = λ id h. p.lives id ∙ p.standby_live id h;
  live_busy = λ id h.
      subst (λ (b : String → Bool). b (v'.jobs id).key ≡ true) (sym p.busy)
        (subst (λ k. v.busy k ≡ true) (sym (p.keys id)) (t.live_busy id (sym (p.lives id) ∙ h)));
  busy_live = λ key h.
      let h' : v.busy key ≡ true = subst (λ (b : String → Bool). b key ≡ true) p.busy h in
      let (id, live, same) = t.busy_live key h' in (id, p.lives id ∙ live, p.keys id ∙ same);
  one_live = λ i j li lj same.
      t.one_live i j (sym (p.lives i) ∙ li) (sym (p.lives j) ∙ lj)
        (sym (p.keys i) ∙ same ∙ p.keys j);
}

-- A property of a written entry, and of the others.
pub at_put :
    (P : ℕ → Job → Type 0) (jobs : ℕ → Job) (id : ℕ) (j : Job)
    → P id j
    → ((i : ℕ) → (id == i) ≡ false → P i (jobs i))
    → (i : ℕ) → P i (put jobs id j i)
at_put P jobs id j here there i = elim (Bool-cases (id == i)) [
  | inl same ↦ rw same (subst (λ x. P x j) (==→eq id i same) here)
  | inr other ↦ rw other (there i other)
]

-- A write to a job that keeps its key and its status.
pub touched-IsTidy :
    (v : View) (id : ℕ) (j : Job)
    → j.key ≡ (v.jobs id).key
    → j.status ≡ (v.jobs id).status
    → IsTidy v
    → IsTidy (record v { jobs = put v.jobs id j })
touched-IsTidy v id j same_key same_status t =
    let status =
      at_put (λ i k. k.status ≡ (v.jobs i).status) v.jobs id j same_status (λ i _. refl) in
    placed-IsTidy v (record v { jobs = put v.jobs id j })
      (record {
        keys = at_put (λ i k. k.key ≡ (v.jobs i).key) v.jobs id j same_key (λ i _. refl);
        lives = λ i. ap (λ s. has_id i v.history && not (is_status s finished)) (status i);
        busy = refl;
        queued_once = t.queued_once;
        active_once = t.active_once;
        queue_queued = λ i h. ap (λ s. is_status s queued) (status i) ∙ t.queue_queued i h;
        queue_live = t.queue_live;
        active_running = λ i h. ap (λ s. is_status s job_running) (status i) ∙ t.active_running i h;
        active_live = t.active_live;
        standby_live = λ i h. t.standby_live i (sym (ap (λ s. is_status s standby) (status i)) ∙ h);
      })
      t

-- A live job changes its status, and its place in the queue and among the active jobs.
pub changed-IsTidy :
    (v : View) (id : ℕ) (j : Job) (queue active : List ℕ)
    → is_live v id ≡ true
    → j.key ≡ (v.jobs id).key
    → is_status j.status finished ≡ false
    → ((i : ℕ) → (id == i) ≡ false → times i queue ≡ times i v.queue)
    → ((i : ℕ) → (id == i) ≡ false → times i active ≡ times i v.active)
    → times id queue ≤ (if is_status j.status queued then 1 else 0)
    → times id active ≤ (if is_status j.status job_running then 1 else 0)
    → IsTidy v
    → IsTidy (record v { jobs = put v.jobs id j; queue = queue; active = active })
changed-IsTidy v id j queue active live same_key going other_q other_a q a t =
    placed-IsTidy v (record v { jobs = put v.jobs id j; queue = queue; active = active })
      (record {
        keys = at_put (λ i k. k.key ≡ (v.jobs i).key) v.jobs id j same_key (λ i _. refl);
        lives =
            at_put (λ i k. (has_id i v.history && not (is_status k.status finished)) ≡ is_live v i)
              v.jobs id j (ground (arith, live, going)) (λ i _. refl);
        busy = refl;
        queued_once = λ i.
            at_put (λ i k. times i queue ≤ 1) v.jobs id j (ground (arith, q))
              (λ i e. ground (arith, other_q i e, t.queued_once i)) i;
        active_once = λ i.
            at_put (λ i k. times i active ≤ 1) v.jobs id j (ground (arith, a))
              (λ i e. ground (arith, other_a i e, t.active_once i)) i;
        queue_queued =
            at_put (λ i k. has_id i queue ≡ true → is_status k.status queued ≡ true) v.jobs id j
              (λ h. ground (arith, q, has_id-times id queue, h))
              (λ i e h.
                t.queue_queued i
                  (ground (arith, other_q i e, has_id-times i queue, has_id-times i v.queue, h)));
        queue_live =
            at_put (λ i k. has_id i queue ≡ true → is_live v i ≡ true) v.jobs id j (λ h. live)
              (λ i e h.
                t.queue_live i
                  (ground (arith, other_q i e, has_id-times i queue, has_id-times i v.queue, h)));
        active_running =
            at_put (λ i k. has_id i active ≡ true → is_status k.status job_running ≡ true) v.jobs id
              j (λ h. ground (arith, a, has_id-times id active, h))
              (λ i e h.
                t.active_running i
                  (ground (arith, other_a i e, has_id-times i active, has_id-times i v.active, h)));
        active_live =
            at_put (λ i k. has_id i active ≡ true → is_live v i ≡ true) v.jobs id j (λ h. live)
              (λ i e h.
                t.active_live i
                  (ground (arith, other_a i e, has_id-times i active, has_id-times i v.active, h)));
        standby_live =
            at_put (λ i k. is_status k.status standby ≡ true → is_live v i ≡ true) v.jobs id j
              (λ h. live) (λ i e h. t.standby_live i h);
      })
      t

-- Of the entries of a store that one is written to.
pub put_other : (jobs : ℕ → Job) (id i : ℕ) (j : Job) → (id == i) ≡ false → put jobs id j i ≡ jobs i
put_other jobs id i j other = rw other
