-- ===== src/Ts/Detector/Verdict.antt =====
-- ts/detector.go: what `Detect` says, and that more bytes do not change it.
use mahiron.Prelude.{
  ℕ, ◌+◌, ◌*◌, ◌≡◌, ◌↔◌, ◌⊎◌, inl, inr, refl, ◌∙◌, Bool, true, false, ◌&&◌, List, ◌++◌, ltb, ◌==◌,
  ◌≢◌, length-append, get_or-append_left, length, Bool-cases, arith,
}
use mahiron.Packets.{undecided, matched, rejected}
use mahiron.Ts.{byte_at}
use mahiron.Ts.Detector.{has_sync_run, has_any_run, detect}
use mahiron.Ts.Detector.Runs.{SyncAt, SyncRun, HasRun, has_sync_run_iff, or_elim, or_left, or_right}

-- What a transport stream is taken for: five packets in a row, plain ones, ones with a timestamp
-- before them, or ones with parity behind them.
abbrev pub HasPackets : List ℕ → Type 0
HasPackets buf = HasRun buf 188 0 5 ⊎ (HasRun buf 192 4 5 ⊎ HasRun buf 204 0 5)

has_any_run_iff : (buf : List ℕ) → (has_any_run buf ≡ true) ↔ HasPackets buf
unfolding has_any_run
has_any_run_iff buf = (finds, found)
  where
    finds : has_any_run buf ≡ true → HasPackets buf
    finds h = elim (or_elim (has_sync_run buf 188 0 5) _ h) [
      | inl plain ↦ inl ((has_sync_run_iff buf 188 0 4).0 plain)
      | inr other ↦ elim (or_elim (has_sync_run buf 192 4 5) _ other) [
        | inl stamped ↦ inr (inl ((has_sync_run_iff buf 192 4 4).0 stamped))
        | inr coded ↦ inr (inr ((has_sync_run_iff buf 204 0 4).0 coded))
      ]
    ]

    found : HasPackets buf → has_any_run buf ≡ true
    found (inl run) = or_left _ _ ((has_sync_run_iff buf 188 0 4).1 run)
    found (inr (inl run)) =
        or_right (has_sync_run buf 188 0 5) _ (or_left _ _ ((has_sync_run_iff buf 192 4 4).1 run))
    found (inr (inr run)) =
        or_right (has_sync_run buf 188 0 5) _
          (or_right (has_sync_run buf 192 4 5) _ ((has_sync_run_iff buf 204 0 4).1 run))

starts_lem : (buf : List ℕ) → ((ltb 0 (length buf) && byte_at buf 0 == 0x47) ≡ true) ↔ SyncAt buf 0
starts_lem buf = (λ h. ground (arith, h), λ h. ground (arith, h))

-- What `Detect` says by the two tests.
detect_cases :
    (runs : Bool) (final : Bool) (buf : List ℕ)
    → has_any_run buf ≡ runs
    → ((detect buf final ≡ matched) ↔ (runs ≡ true) ⊎ ((final ≡ true) × SyncAt buf 0))
      × (final ≡ true → detect buf final ≢ undecided)
      × (final ≡ false → detect buf final ≢ rejected)
unfolding detect
detect_cases true final buf e =
    rw (e, detect) ((λ h. inl refl, λ h. refl), λ f wrong. cc, λ f wrong. cc)
detect_cases false false buf e =
    rw (e, detect)
      (
        (λ wrong. cc, λ o. elim o [ inl wrong ↦ cc | inr (wrong, _) ↦ cc ]),
        λ wrong. cc,
        λ f wrong. cc,
      )
detect_cases false true buf e =
    let starts = starts_lem buf in
    elim (Bool-cases (ltb 0 (length buf) && byte_at buf 0 == 0x47)) [
      | inl here ↦
          rw (e, here, detect)
            ((λ h. inr (refl, starts.0 here), λ o. refl), λ f wrong. cc, λ f wrong. cc)
      | inr away ↦
          rw (e, away, detect)
            (
              (
                λ wrong. cc,
                λ o. elim o [ inl wrong ↦ cc | inr (_, here) ↦ let h = starts.1 here in cc ],
              ),
              λ f wrong. cc,
              λ f wrong. cc,
            )
    ]

or_map : {A B C : Type 0} → (A ↔ B) → (A ⊎ C) ↔ (B ⊎ C)
or_map f = (
  λ o. elim o [ inl a ↦ inl (f.0 a) | inr c ↦ inr c ],
  λ o. elim o [ inl b ↦ inl (f.1 b) | inr c ↦ inr c ],
)

-- Bytes are taken for a transport stream exactly if five sync bytes stand in them as packets of one
-- of the three kinds have them, from one of the first 188 places on; or if no more come, and the
-- first one is a sync byte. If no more come the detector decides, and it rejects nothing before.
pub detect_lem :
    (buf : List ℕ) (final : Bool)
    → ((detect buf final ≡ matched) ↔ (HasPackets buf ⊎ ((final ≡ true) × SyncAt buf 0)))
      × (final ≡ true → detect buf final ≢ undecided)
      × (final ≡ false → detect buf final ≢ rejected)
detect_lem buf final =
    let (says, decides, waits) = detect_cases (has_any_run buf) final buf refl in
    let same = or_map {C = (final ≡ true) × SyncAt buf 0} (has_any_run_iff buf) in
    ((λ h. same.0 (says.0 h), λ o. says.1 (same.1 o)), decides, waits)

SyncRun-append :
    (buf more : List ℕ) (stride start n : ℕ)
    → SyncRun buf stride start n
    → SyncRun (buf ++ more) stride start n
SyncRun-append buf more stride start n run k lt =
    let (inside, synced) = run k lt in
    (
      omega (arith, inside, length-append buf more),
      get_or-append_left buf more (start + k * stride) 0 inside ∙ synced,
    )

HasRun-append :
    (buf more : List ℕ) (stride offset n : ℕ)
    → HasRun buf stride offset n
    → HasRun (buf ++ more) stride offset n
HasRun-append buf more stride offset n (i, lt, run) = (
  i,
  omega (arith, lt, length-append buf more),
  SyncRun-append buf more stride (i + offset) n run,
)

-- What is taken for a transport stream before its end stays so, whatever comes.
pub detect-append :
    (buf more : List ℕ) (final : Bool)
    → detect buf false ≡ matched
    → detect (buf ++ more) final ≡ matched
detect-append buf more final h = elim ((detect_lem buf false).0.0 h) [
  | inl (inl plain) ↦
      (detect_lem (buf ++ more) final).0.1 (inl (inl (HasRun-append buf more 188 0 5 plain)))
  | inl (inr (inl stamped)) ↦
      (detect_lem (buf ++ more) final).0.1
        (inl (inr (inl (HasRun-append buf more 192 4 5 stamped))))
  | inl (inr (inr coded)) ↦
      (detect_lem (buf ++ more) final).0.1 (inl (inr (inr (HasRun-append buf more 204 0 5 coded))))
  | inr (wrong, _) ↦ cc
]
