-- ===== src/Job/Keys/Begins.antt =====
-- internal/job/manager.go: a new job takes its key.
use text.Mathlib.Text.{◌==◌ as str_eq}
use text.Mathlib.TextEquality.{eq_iff}
use mahiron.Prelude.{
  ℕ, ◌≡◌, refl, sym, ap, ◌∙◌, subst, ◌⊎◌, true, false, not, ◌&&◌, [], ◌∷◌, ◌++◌, ◌==◌, ==→eq,
  ==_refl, inl, inr, Bool-cases, arith,
}
use mahiron.Prelude.Maps.{put, put_str}
use mahiron.Job.{Job, queued, standby, job_running, finished}
use mahiron.Job.Run.{is_status}
use mahiron.Job.Api.{has_id}
use mahiron.Job.Keys.{View, has_status, is_live, IsTidy, queued_apart}
use mahiron.Job.Keys.Lists.{has_id-times, times-append, has_id-append}
use mahiron.Job.Keys.Updates.{at_put, put_other}

-- A new job takes a key that is free.
module _ (v : View) (id : ℕ) (j : Job) (t : IsTidy v) (fresh : has_id id v.history ≡ false)
    (free : v.busy j.key ≡ false) (waits : is_status j.status queued ≡ true) where
  abbrev added : View
  added = record {
    jobs = put v.jobs id j;
    history = v.history ++ (id ∷ []);
    queue = v.queue ++ (id ∷ []);
    active = v.active;
    busy = put_str v.busy j.key true;
  }

  new_or_live :
      (i : ℕ)
      → is_live added i ≡ true
      → ((id == i) ≡ true) ⊎ ((is_live v i ≡ true) × ((id == i) ≡ false))
  new_or_live =
      at_put
        (λ i k.
          (has_id i (v.history ++ (id ∷ [])) && not (is_status k.status finished)) ≡ true
          → ((id == i) ≡ true) ⊎ ((is_live v i ≡ true) × ((id == i) ≡ false)))
        v.jobs id j (λ h. inl (==_refl id))
        (λ i e h. inr (ground (arith, has_id-append id i v.history), e))

  entry : (i : ℕ) → (id == i) ≡ false → put v.jobs id j i ≡ v.jobs i
  entry i other = put_other v.jobs id i j other

  entry_new : (i : ℕ) → (id == i) ≡ true → put v.jobs id j i ≡ j
  entry_new i here = rw here

  not_new : (i : ℕ) → is_live v i ≡ true → (id == i) ≡ false
  not_new i li = elim (Bool-cases (id == i)) [
    | inl here ↦
        let li' = subst (λ x. is_live v x ≡ true) (sym (==→eq id i here)) li in
        ground (arith, li', fresh)
    | inr other ↦ other
  ]

  old_live : (i : ℕ) → is_live v i ≡ true → is_live added i ≡ true
  old_live i li = ground (
    arith,
    li,
    has_id-append id i v.history,
    ap (λ (k : Job). is_status k.status finished) (entry i (not_new i li)),
  )

  new_live : is_live added id ≡ true
  new_live = ground (arith, has_id-append id id v.history, queued_apart j.status waits, ==_refl id)

  old_key : (i : ℕ) → is_live v i ≡ true → str_eq j.key (v.jobs i).key ≡ false
  old_key i li = elim (Bool-cases (str_eq j.key (v.jobs i).key)) [
    | inl same ↦
        let taken =
          subst (λ k. v.busy k ≡ true) (sym ((eq_iff j.key (v.jobs i).key).0 same))
            (t.live_busy i li) in
        cc
    | inr apart ↦ apart
  ]

  not_queued : (i : ℕ) → (id == i) ≡ true → has_id i v.queue ≡ false
  not_queued i here = elim (Bool-cases (has_id i v.queue)) [
    | inl there ↦ let other = not_new i (t.queue_live i there) in cc
    | inr away ↦ away
  ]

  stands_by : (i : ℕ) → has_status added standby i ≡ true → is_live v i ≡ true
  stands_by =
      at_put (λ i k. is_status k.status standby ≡ true → is_live v i ≡ true) v.jobs id j
        (λ h. ground (arith, queued_apart j.status waits)) (λ i e h. t.standby_live i h)

  queue_live' : (i : ℕ) → has_id i added.queue ≡ true → is_live added i ≡ true
  queue_live' i h = elim (Bool-cases (id == i)) [
    | inl here ↦ subst (λ x. is_live added x ≡ true) (==→eq id i here) new_live
    | inr other ↦ old_live i (t.queue_live i (ground (arith, has_id-append id i v.queue, other, h)))
  ]

  one_holder :
      (i k : ℕ)
      → (id == i) ≡ true
      → is_live v k ≡ true
      → (added.jobs i).key ≡ (added.jobs k).key
      → i ≡ k
  one_holder i k here lk same =
      let e =
        sym (ap (λ (x : Job). x.key) (entry_new i here))
        ∙ same
        ∙ ap (λ (x : Job). x.key) (entry k (not_new k lk)) in
      let h = (eq_iff j.key (v.jobs k).key).1 e in let h' = old_key k lk in cc

  pub added-IsTidy : IsTidy added
  added-IsTidy = record {
    queued_once = λ i.
        ground
          (arith, times-append id i v.queue, t.queued_once i, has_id-times i v.queue, not_queued i);
    active_once = t.active_once;
    queue_queued =
        at_put (λ i k. has_id i (v.queue ++ (id ∷ [])) ≡ true → is_status k.status queued ≡ true)
          v.jobs id j (λ h. waits)
          (λ i e h. t.queue_queued i (ground (arith, has_id-append id i v.queue, e, h)));
    queue_live = queue_live';
    active_running = λ i h.
        ap (λ (k : Job). is_status k.status job_running) (entry i (not_new i (t.active_live i h)))
        ∙ t.active_running i h;
    active_live = λ i h. old_live i (t.active_live i h);
    standby_live = λ i h. old_live i (stands_by i h);
    live_busy = λ i h. elim (new_or_live i h) [
      | inl here ↦ rw (here, (eq_iff j.key j.key).1 refl)
      | inr (li, other) ↦ rw (other, old_key i li) (t.live_busy i li)
    ];
    busy_live = λ key h. elim (Bool-cases (str_eq j.key key)) [
      | inl same ↦ (
        id,
        new_live,
        ap (λ (x : Job). x.key) (entry_new id (==_refl id)) ∙ (eq_iff j.key key).0 same,
      )
      | inr apart ↦
          let (i, li, same) = t.busy_live key (rw apart at h) in
          (i, old_live i li, ap (λ (x : Job). x.key) (entry i (not_new i li)) ∙ same)
    ];
    one_live = λ i k li lk same. elim (new_or_live i li) [
      | inl here ↦ elim (new_or_live k lk) [
        | inl here' ↦ sym (==→eq id i here) ∙ ==→eq id k here'
        | inr (lk', _) ↦ one_holder i k here lk' same
      ]
      | inr (li', _) ↦ elim (new_or_live k lk) [
        | inl here' ↦ sym (one_holder k i here' li' (sym same))
        | inr (lk', _) ↦ t.one_live i k li' lk' (
            sym (ap (λ (x : Job). x.key) (entry i (not_new i li')))
            ∙ same
            ∙ ap (λ (x : Job). x.key) (entry k (not_new k lk')))
      ]
    ];
  }
