-- ===== src/Ts/Detector/Checked.antt =====
-- packet/packet.go with ts/detector.go: the format check of a transport stream.
use mahiron.Prelude.{
  ℕ, ◌≡◌, refl, sym, ap, ◌∙◌, ◌⊎◌, inl, inr, true, false, ◌||◌, String, Option, none, some, List,
  [], ◌∷◌, ◌++◌, leb, length, arith,
}
use mahiron.Packets.{
  Detector, StreamError, read_error, read_failure, Source, CheckReader, probe_limit, is_matched,
  has_error, refusal, check,
}
use mahiron.Packets.Checked.{IsReader, Accepts, check_lem}
use mahiron.Ts.{byte_at}
use mahiron.Ts.Detector.{ts_detector}
use mahiron.Ts.Detector.Runs.{SyncAt}
use mahiron.Ts.Detector.Verdict.{detect_lem}

-- The check ends with the error of the reader below, before that gave any byte.
abbrev pub FailsAtOnce {ℓ} :
    {S : Type ℓ} → (S → List ℕ) → CheckReader S → CheckReader S → Option StreamError → Type 0
FailsAtOnce left c c' err =
    (text : String) × (err ≡ some (read_error text)) × (left c'.r ≡ left c.r)

starts-SyncAt :
    (x : ℕ) (xs rest all : List ℕ) → (x ∷ xs) ++ rest ≡ all → SyncAt all 0 → SyncAt (x ∷ xs) 0
starts-SyncAt x xs rest all e (inside, synced) = (omega arith, ap (λ l. byte_at l 0) e ∙ synced)

failed_first :
    (failure : Option String)
    → (has_error failure || leb probe_limit 0) ≡ true
    → (text : String) × (read_failure failure ≡ some (read_error text))
failed_first none over = absurd (ground (arith, over))
failed_first (some text) over = (text, refl)

module _ {ℓ} {S : Type ℓ} (src : Source S) (left : S → List ℕ) where
  refused :
      (c c' : CheckReader S) (err : Option StreamError) (seen : List ℕ) (failure : Option String)
      → c.self ≡ ts_detector
      → SyncAt (left c.r) 0
      → err ≡ refusal c.self c.others seen failure
      → seen ++ left c'.r ≡ left c.r
      → is_matched (c.self.detect seen true) ≡ false
      → (has_error failure || leb probe_limit (length seen)) ≡ true
      → FailsAtOnce left c c' err
  unfolding refusal ts_detector
  refused c c' err [] failure e synced is_refusal whole unknown over =
      let (text, fails) = failed_first failure over in (text, is_refusal ∙ fails, whole)
  refused c c' err (x ∷ xs) failure e synced is_refusal whole unknown over =
      let here = starts-SyncAt x xs (left c'.r) (left c.r) whole synced in
      let known = (detect_lem (x ∷ xs) true).0.1 (inr (refl, here)) in
      let denied = sym (ap (λ (d : Detector). is_matched (d.detect (x ∷ xs) true)) e) ∙ unknown in
      let wrong : true ≡ false = sym (ap is_matched known) ∙ denied in absurd cc

  -- Of a reader that gives its bytes in order, in each read no more than asked for and at least one of
  -- them or an error, with a buffer that grows when it is full, with the transport stream's detector as
  -- its own one, and whose stream starts with a sync byte: the check of the format ends. It accepts the
  -- stream, and none of its bytes is lost, whatever the other detectors say; or the reader fails before
  -- it gives the first byte, and its error is returned.
  pub check_of_sync :
      (c : CheckReader S)
      → IsReader src left
      → c.self ≡ ts_detector
      → SyncAt (left c.r) 0
      → (c' : CheckReader S) × (err : Option StreamError) × (check src c ≡ some (c', err))
        × (Accepts left c [] c' err ⊎ FailsAtOnce left c c' err)
  check_of_sync c reader e synced =
      let (c', err, done, verdict) = check_lem src left c reader in
      (
        c',
        err,
        done,
        elim verdict [
          | inl accepted ↦ inl accepted
          | inr (seen, failure, is_refusal, unchecked, whole, unknown, over) ↦
              inr (refused c c' err seen failure e synced is_refusal whole unknown over)
        ],
      )
