-- ===== src/Job/Keys/Ends.antt =====
-- internal/job/manager.go: a job that ends gives its key back.
use text.Mathlib.Text.{◌==◌ as str_eq}
use text.Mathlib.TextEquality.{eq_iff}
use mahiron.Prelude.{
  ℕ, ◌≡◌, sym, ap, ◌∙◌, subst, String, true, false, not, ◌&&◌, List, ◌==◌, ==→eq, inl, inr,
  Bool-cases, arith,
}
use mahiron.Prelude.Maps.{put, put_str}
use mahiron.Job.{Job, queued, standby, job_running, finished}
use mahiron.Job.Run.{is_status}
use mahiron.Job.Api.{has_id}
use mahiron.Job.Keys.{View, has_status, is_live, IsTidy, standby_apart}
use mahiron.Job.Keys.Updates.{at_put, put_other}

-- A live job that is in neither list ends, and its key is free again.
module _ (v : View) (id : ℕ) (j : Job) (same_key : j.key ≡ (v.jobs id).key) (t : IsTidy v) where
  module _ (live : is_live v id ≡ true) (off_queue : has_id id v.queue ≡ false)
      (idle : has_id id v.active ≡ false) (over : is_status j.status finished ≡ true) where
    abbrev ended : View
    ended = record v { jobs = put v.jobs id j; busy = put_str v.busy j.key false }

    still_live : (i : ℕ) → is_live ended i ≡ true → (is_live v i ≡ true) × ((id == i) ≡ false)
    still_live =
        at_put
          (λ i k.
            (has_id i v.history && not (is_status k.status finished)) ≡ true
            → (is_live v i ≡ true) × ((id == i) ≡ false))
          v.jobs id j (λ h. ground (arith, over, h)) (λ i e h. (h, e))

    other_live : (i : ℕ) → is_live v i ≡ true → (id == i) ≡ false → is_live ended i ≡ true
    other_live i li other =
        ap (λ (k : Job). has_id i v.history && not (is_status k.status finished))
          (put_other v.jobs id i j other)
        ∙ li

    other_key :
        (i : ℕ) → is_live v i ≡ true → (id == i) ≡ false → str_eq j.key (v.jobs i).key ≡ false
    other_key i li other = elim (Bool-cases (str_eq j.key (v.jobs i).key)) [
      | inl same ↦
          let e = t.one_live id i live li (sym same_key ∙ (eq_iff j.key (v.jobs i).key).0 same) in
          ground (arith, e, other)
      | inr apart ↦ apart
    ]

    holder_other :
        (key : String) (i : ℕ) → str_eq j.key key ≡ false → (v.jobs i).key ≡ key → (id == i) ≡ false
    holder_other key i apart same = elim (Bool-cases (id == i)) [
      | inl here ↦
          let e = same_key ∙ ap (λ x. (v.jobs x).key) (==→eq id i here) ∙ same in
          let h = (eq_iff j.key key).1 e in cc
      | inr other ↦ other
    ]

    entry : (i : ℕ) → (id == i) ≡ false → put v.jobs id j i ≡ v.jobs i
    entry i other = put_other v.jobs id i j other

    off : (l : List ℕ) (i : ℕ) → has_id id l ≡ false → has_id i l ≡ true → (id == i) ≡ false
    off l i out there = elim (Bool-cases (id == i)) [
      | inl here ↦ let out' = subst (λ x. has_id x l ≡ false) (==→eq id i here) out in cc
      | inr other ↦ other
    ]

    stands_by :
        (i : ℕ) → has_status ended standby i ≡ true → (is_live v i ≡ true) × ((id == i) ≡ false)
    stands_by =
        at_put
          (λ i k. is_status k.status standby ≡ true → (is_live v i ≡ true) × ((id == i) ≡ false))
          v.jobs id j (λ h. ground (arith, over, standby_apart j.status h))
          (λ i e h. (t.standby_live i h, e))

    pub ended-IsTidy : IsTidy ended
    ended-IsTidy = record {
      queued_once = t.queued_once;
      active_once = t.active_once;
      queue_queued = λ i h.
          ap (λ (k : Job). is_status k.status queued) (entry i (off v.queue i off_queue h))
          ∙ t.queue_queued i h;
      queue_live = λ i h. other_live i (t.queue_live i h) (off v.queue i off_queue h);
      active_running = λ i h.
          ap (λ (k : Job). is_status k.status job_running) (entry i (off v.active i idle h))
          ∙ t.active_running i h;
      active_live = λ i h. other_live i (t.active_live i h) (off v.active i idle h);
      standby_live = λ i h. let (li, other) = stands_by i h in other_live i li other;
      live_busy = λ i h.
          let (li, other) = still_live i h in rw (other, other_key i li other) (t.live_busy i li);
      busy_live = λ key h.
          let apart : str_eq j.key key ≡ false = ground (arith, h) in
          let taken : v.busy key ≡ true = ground (arith, h) in
          let (i, li, same) = t.busy_live key taken in
          let other = holder_other key i apart same in
          (i, other_live i li other, ap (λ (k : Job). k.key) (entry i other) ∙ same);
      one_live = λ i k li lk same.
          let (li', other) = still_live i li in
          let (lk', other') = still_live k lk in
          t.one_live i k li' lk' (
            sym (ap (λ (x : Job). x.key) (entry i other))
            ∙ same
            ∙ ap (λ (x : Job). x.key) (entry k other'));
    }
