-- ===== src/Ts/Detector/Runs.antt =====
-- ts/detector.go: the runs of sync bytes that the loops find.
use mahiron.Prelude.{
  ℕ, zero, suc, ◌+◌, ◌*◌, ◌≤◌, ◌<◌, ◌≡◌, ◌↔◌, ◌⊎◌, inl, inr, refl, sym, subst, Bool, true, false,
  ◌||◌, List, ◌==◌, ==→eq, min, length, Bool-cases, arith,
}
use mahiron.Ts.{byte_at}
use mahiron.Ts.Detector.{count_syncs, is_run_at, scan_runs, has_sync_run}

-- A sync byte in the bytes.
abbrev pub SyncAt : List ℕ → ℕ → Type 0
SyncAt buf i = (i < length buf) × (byte_at buf i ≡ 0x47)

-- `n` sync bytes, a stride apart.
abbrev pub SyncRun : List ℕ → ℕ → ℕ → ℕ → Type 0
SyncRun buf stride start n = (k : ℕ) → k < n → SyncAt buf (start + k * stride)

run_shift :
    (buf : List ℕ) (stride start k : ℕ)
    → SyncAt buf (start + stride + k * stride) ↔ SyncAt buf (start + suc k * stride)
run_shift buf stride start k =
    let same : start + stride + k * stride ≡ start + suc k * stride = omega arith in
    (λ s. subst (SyncAt buf) same s, λ s. subst (SyncAt buf) (sym same) s)

-- A run is its first sync byte, and the run after that.
run_cons :
    (buf : List ℕ) (stride start n : ℕ)
    → (SyncAt buf start × SyncRun buf stride (start + stride) n) ↔ SyncRun buf stride start (suc n)
run_cons buf stride start n = (join, part)
  where
    first : start + 0 * stride ≡ start
    first = omega arith

    join :
        SyncAt buf start × SyncRun buf stride (start + stride) n → SyncRun buf stride start (suc n)
    join (here, rest) zero lt = subst (SyncAt buf) (sym first) here
    join (here, rest) (suc k) lt = (run_shift buf stride start k).0 (rest k (omega (arith, lt)))

    part :
        SyncRun buf stride start (suc n) → SyncAt buf start × SyncRun buf stride (start + stride) n
    part run = (
      subst (SyncAt buf) first (run 0 (omega arith)),
      λ k lt. (run_shift buf stride start k).1 (run (suc k) (omega (arith, lt))),
    )

count_step :
    (left : ℕ) (buf : List ℕ) (stride next : ℕ)
    → suc left ≤ count_syncs (suc left) buf stride next
      ↔ SyncAt buf next × (left ≤ count_syncs left buf stride (next + stride))
unfolding count_syncs
count_step left buf stride next = (λ h. ground (arith, h), λ h. ground (arith, h))

count_syncs_iff :
    (left : ℕ) (buf : List ℕ) (stride next : ℕ)
    → left ≤ count_syncs left buf stride next ↔ SyncRun buf stride next left
count_syncs_iff zero buf stride next = (λ h k lt. absurd (omega (arith, lt)), λ h. omega arith)
count_syncs_iff (suc left) buf stride next =
    let step = count_step left buf stride next in
    let rest = count_syncs_iff left buf stride (next + stride) in
    let whole = run_cons buf stride next left in
    (
      λ h. let (here, more) = step.0 h in whole.0 (here, rest.0 more),
      λ run. let (here, more) = whole.1 run in step.1 (here, rest.1 more),
    )

run_step :
    (buf : List ℕ) (stride offset left i : ℕ)
    → (is_run_at buf stride offset (suc left) i ≡ true)
      ↔ SyncAt buf (i + offset) × (left ≤ count_syncs left buf stride (i + stride + offset))
unfolding is_run_at
run_step buf stride offset left i = (λ h. ground (arith, h), λ h. ground (arith, h))

-- A run of sync bytes, the first of them at `i + offset`.
is_run_at_iff :
    (buf : List ℕ) (stride offset left i : ℕ)
    → (is_run_at buf stride offset (suc left) i ≡ true) ↔ SyncRun buf stride (i + offset) (suc left)
is_run_at_iff buf stride offset left i =
    let step = run_step buf stride offset left i in
    let rest = count_syncs_iff left buf stride (i + stride + offset) in
    let whole = run_cons buf stride (i + offset) left in
    let same : i + stride + offset ≡ i + offset + stride = omega arith in
    (
      λ h.
          let (here, more) = step.0 h in
          whole.0 (here, subst (λ n. SyncRun buf stride n left) same (rest.0 more)),
      λ run.
          let (here, more) = whole.1 run in
          step.1 (here, rest.1 (subst (λ n. SyncRun buf stride n left) (sym same) more)),
    )

-- A run that starts in the first `places` places from `i` on.
abbrev RunFrom : List ℕ → ℕ → ℕ → ℕ → ℕ → ℕ → Type 0
RunFrom buf stride offset want i places =
    (j : ℕ) × (i ≤ j) × (j < i + places) × SyncRun buf stride (j + offset) want

pub or_elim : (a b : Bool) → (a || b) ≡ true → (a ≡ true) ⊎ (b ≡ true)
or_elim true b h = inl refl
or_elim false b h = inr h

pub or_left : (a b : Bool) → a ≡ true → (a || b) ≡ true
or_left a b h = rw h refl

pub or_right : (a b : Bool) → b ≡ true → (a || b) ≡ true
or_right true b h = refl
or_right false b h = h

scan_runs-finds :
    (places : ℕ) (buf : List ℕ) (stride offset left i : ℕ)
    → scan_runs places buf stride offset (suc left) i ≡ true
    → RunFrom buf stride offset (suc left) i places
unfolding scan_runs
scan_runs-finds zero buf stride offset left i h = absurd cc
scan_runs-finds (suc places) buf stride offset left i h =
    elim (or_elim (is_run_at buf stride offset (suc left) i) _ h) [
      | inl here ↦ (i, omega arith, omega arith, (is_run_at_iff buf stride offset left i).0 here)
      | inr later ↦
          let (j, from, upto, run) = scan_runs-finds places buf stride offset left (i + 1) later in
          (j, omega (arith, from), omega (arith, upto), run)
    ]

scan_runs-found :
    (places : ℕ) (buf : List ℕ) (stride offset left i : ℕ)
    → RunFrom buf stride offset (suc left) i places
    → scan_runs places buf stride offset (suc left) i ≡ true
unfolding scan_runs
scan_runs-found zero buf stride offset left i (j, from, upto, run) =
    absurd (omega (arith, from, upto))
scan_runs-found (suc places) buf stride offset left i (j, from, upto, run) =
    elim (Bool-cases (i == j)) [
      | inl here ↦ or_left (is_run_at buf stride offset (suc left) i) _ (
          (is_run_at_iff buf stride offset left i).1
            (subst (λ n. SyncRun buf stride (n + offset) (suc left)) (sym (==→eq i j here)) run))
      | inr later ↦ or_right (is_run_at buf stride offset (suc left) i) _ (
          scan_runs-found places buf stride offset left (i + 1)
            (j, ground (arith, from, later), omega (arith, upto), run))
    ]

-- A run of `n` sync bytes of this stride that begins in the first 188 places.
abbrev pub HasRun : List ℕ → ℕ → ℕ → ℕ → Type 0
HasRun buf stride offset n =
    (i : ℕ) × (i < min (length buf) 188) × SyncRun buf stride (i + offset) n

pub has_sync_run_iff :
    (buf : List ℕ) (stride offset left : ℕ)
    → (has_sync_run buf stride offset (suc left) ≡ true) ↔ HasRun buf stride offset (suc left)
unfolding has_sync_run
has_sync_run_iff buf stride offset left = (
  λ h.
      let (j, from, upto, run) = scan_runs-finds _ buf stride offset left 0 h in
      (j, omega (arith, upto), run),
  λ (j, lt, run).
      scan_runs-found _ buf stride offset left 0 (j, omega arith, omega (arith, lt), run),
)
