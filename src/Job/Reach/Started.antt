-- ===== src/Job/Reach/Started.antt =====
-- `dispatchLocked` of internal/job/manager.go, as the list of the jobs that it starts.
use mahiron.Prelude.{
  ℕ, ◌+◌, ◌≡◌, refl, ap, ◌∙◌, Bool, true, false, ◌||◌, some, List, [], ◌∷◌, ◌==◌, ==→eq,
  if◌then◌else◌, inl, inr, Bool-cases, then_branch, else_branch, length, arith,
}
use mahiron.Prelude.Int.{ltb_ℤ}
use mahiron.Job.{Job, Manager, job_running}
use mahiron.Job.Queue.{runnable, remove}
use mahiron.Job.Run.{start_job}
use mahiron.Job.Api.{has_id}
use mahiron.Job.Pick.{priority_of}
use mahiron.Job.Keys.{times}
use mahiron.Job.Keys.Lists.{has_id-times, times-remove}

-- A job that has just begun to run.
abbrev pub begun : ℕ → Job → Job
begun now j = record j { status = job_running; started_at = some now; updated_at = now }

-- The jobs put in front of a list, one after the other.
abbrev pub push_each : List ℕ → List ℕ → List ℕ
push_each [] l = l
push_each (id ∷ ids) l = push_each ids (id ∷ l)

-- The state at the turn of the next job.
abbrev pub after_start : Manager → ℕ → ℕ → Manager
after_start m id now = start_job (record m { queue = remove id m.queue }) id now

-- Each of the jobs could run when its turn came, and no job that could run was more urgent.
abbrev pub AllInTurn : ℕ → Manager → List ℕ → Type 0
AllInTurn now m [] = Unit
AllInTurn now m (id ∷ ids) =
    (runnable m id ≡ true)
    × ((j : ℕ)
        → has_id j m.queue ≡ true
        → runnable m j ≡ true
        → ltb_ℤ (priority_of m id) (priority_of m j) ≡ false)
    × AllInTurn now (after_start m id now) ids

-- The jobs `ids` were started in turn: just these left the queue, are in front of the active ones, are
-- counted and are running; the other jobs and the history are the same.
pub record HasStarted (now : ℕ) (ids : List ℕ) (m m' : Manager) : Type 0 where
  pub queued : (j : ℕ) → times j m.queue ≡ times j ids + times j m'.queue
  pub active : m'.active ≡ push_each ids m.active
  pub running : m'.running ≡ m.running + length ids
  pub started : (j : ℕ) → has_id j ids ≡ true → m'.jobs j ≡ begun now (m.jobs j)
  pub others : (j : ℕ) → has_id j ids ≡ false → m'.jobs j ≡ m.jobs j
  pub same_history : m'.history ≡ m.history
  pub in_turn : AllInTurn now m ids

pub HasStarted-none : (now : ℕ) (m : Manager) → HasStarted now [] m m
HasStarted-none now m = record {
  queued = λ j. omega arith;
  active = refl;
  running = omega arith;
  started = λ j h. cc;
  others = λ j h. refl;
  same_history = refl;
  in_turn = tt;
}

after_start-jobs :
    (m : Manager) (id now j : ℕ)
    → (after_start m id now).jobs j ≡ (if id == j then begun now (m.jobs j) else m.jobs j)
unfolding start_job
after_start-jobs m id now j = elim (Bool-cases (id == j)) [
  | inl same ↦ let e = ==→eq id j same in rw same (ap (λ k. begun now (m.jobs k)) e)
  | inr other ↦ rw other refl
]

begun_if : (now : ℕ) (b : Bool) (x : Job) → begun now (if b then begun now x else x) ≡ begun now x
begun_if now true x = refl
begun_if now false x = refl

first_of : (b c : Bool) → (b || c) ≡ true → c ≡ false → b ≡ true
first_of true c h k = refl
first_of false c h k = cc

neither : (b c : Bool) → (b || c) ≡ false → (b ≡ false) × (c ≡ false)
neither true c h = cc
neither false c h = (refl, h)

-- One more job, before the others.
pub HasStarted-more :
    (now id : ℕ) (ids : List ℕ) (m m' : Manager)
    → has_id id m.queue ≡ true
    → runnable m id ≡ true
    → ((j : ℕ)
        → has_id j m.queue ≡ true
        → runnable m j ≡ true
        → ltb_ℤ (priority_of m id) (priority_of m j) ≡ false)
    → HasStarted now ids (after_start m id now) m'
    → HasStarted now (id ∷ ids) m m'
unfolding start_job
HasStarted-more now id ids m m' there runs first s = record {
  queued =
      λ j. ground (arith, s.queued j, times-remove id j m.queue, has_id-times id m.queue, there);
  active = s.active;
  running = omega (arith, s.running);
  started = λ j h. elim (Bool-cases (has_id j ids)) [
    | inl later ↦
        s.started j later
        ∙ ap (begun now) (after_start-jobs m id now j)
        ∙ begun_if now (id == j) (m.jobs j)
    | inr earlier ↦
        s.others j earlier
        ∙ after_start-jobs m id now j
        ∙ then_branch (m.jobs j) (first_of (id == j) (has_id j ids) h earlier)
  ];
  others = λ j h.
      let (other, later) = neither (id == j) (has_id j ids) h in
      s.others j later ∙ after_start-jobs m id now j ∙ else_branch (begun now (m.jobs j)) other;
  same_history = s.same_history;
  in_turn = (runs, first, s.in_turn);
}
