-- ===== src/Packets/Checked.antt =====
-- packet/packet.go: the checked stream is the stream, and the check ends.
use mahiron.Prelude.{
  then_branch, ℕ, zero, suc, ◌+◌, ◌-◌, ◌≤◌, ◌≡◌, refl, sym, ap, ◌∙◌, subst, ◌⊎◌, inl, inr, Bool,
  true, false, ◌||◌, Option, none, some, List, [], ◌∷◌, ◌++◌, append_assoc, ltb, leb, ◌==◌,
  if◌then◌else◌, length, take, drop, length-append, take-drop, Bool-cases, String, arith,
}
use mahiron.Packets.{
  Detector, StreamError, read_error, mismatch_or_unknown, Source, CheckReader, probe_limit,
  is_matched, has_error, refusal, check_loop, check, read_probed, read,
}

-- What the check relies on: of the reader, with the bytes that it has left, that they come in order,
-- not more than asked for, and at least one or an error where there is room (io.Reader discourages
-- anything else, and a reader that gives nothing for ever would keep the check waiting); and that a full buffer
-- grows.
pub record IsReader {ℓ} {S : Type ℓ} (src : Source S) (left : S → List ℕ) : Type ℓ where
  pub in_order :
      (s : S) (n : ℕ) → left s ≡ (src.read_into s n).bytes ++ left (src.read_into s n).next
  pub fits : (s : S) (n : ℕ) → length (src.read_into s n).bytes ≤ n
  pub lively :
      (s : S) (n : ℕ)
      → 1 ≤ n
      → has_error (src.read_into s n).error ≡ false
      → 1 ≤ length (src.read_into s n).bytes
  pub grows : (capacity : ℕ) → capacity + 1 ≤ src.grown capacity

-- How a check ends: the detector knows the bytes that are kept for the caller, and none is lost; or
-- it does not know those that were read, and the error is about them.
abbrev pub Accepts {ℓ} :
    {S : Type ℓ}
    → (S → List ℕ)
    → CheckReader S
    → List ℕ
    → CheckReader S
    → Option StreamError
    → Type 0
Accepts left c buf c' err =
    (err ≡ none)
    × (c'.is_checked ≡ true)
    × (c'.probe ++ left c'.r ≡ buf ++ left c.r)
    × ((final : Bool) × is_matched (c.self.detect c'.probe final) ≡ true)

abbrev pub Refuses {ℓ} :
    {S : Type ℓ}
    → (S → List ℕ)
    → CheckReader S
    → List ℕ
    → CheckReader S
    → Option StreamError
    → Type 0
Refuses left c buf c' err =
    (seen : List ℕ) × (failure : Option String) × (err ≡ refusal c.self c.others seen failure)
    × (c'.is_checked ≡ c.is_checked)
    × (seen ++ left c'.r ≡ buf ++ left c.r)
    × (is_matched (c.self.detect seen true) ≡ false)
    × (has_error failure || leb probe_limit (length seen) ≡ true)

abbrev pub Ends {ℓ} :
    {S : Type ℓ}
    → (S → List ℕ)
    → CheckReader S
    → List ℕ
    → Option (CheckReader S × Option StreamError)
    → Type ℓ
Ends {S = S} left c buf result =
    (c' : CheckReader S) × (err : Option StreamError) × (result ≡ some (c', err))
    × (Accepts left c buf c' err ⊎ Refuses left c buf c' err)

room_lem :
    (buf : List ℕ) (capacity more : ℕ)
    → length buf ≤ capacity
    → capacity + 1 ≤ more
    → (1 ≤ (if length buf == capacity then more else capacity) - length buf)
      × (length buf ≤ (if length buf == capacity then more else capacity))
room_lem buf capacity more small grows = elim (Bool-cases (length buf == capacity)) [
  | inl full ↦ ground (arith, full)
  | inr room ↦ ground (arith, room)
]

not_final :
    (b : Bool) (n : ℕ) → (b || leb probe_limit n) ≡ false → (b ≡ false) × (n + 1 ≤ probe_limit)
not_final true n h = ground (arith, h)
not_final false n h = (refl, ground (arith, h))

refusal-some :
    (self : Detector) (others : List Detector) (seen : List ℕ) (failure : Option String)
    → (has_error failure || leb probe_limit (length seen)) ≡ true
    → (e : StreamError) × refusal self others seen failure ≡ some e
unfolding refusal
refusal-some self others [] none over = absurd (ground (arith, over))
refusal-some self others [] (some text) over = (read_error text, refl)
refusal-some self others (x ∷ xs) failure over =
    (mismatch_or_unknown self others (x ∷ xs), ground arith)

nothing_left : (l : List ℕ) → ltb 0 (length l) ≡ false → l ≡ []
nothing_left [] h = refl
nothing_left (x ∷ xs) h = absurd (ground (arith, h))

module _ {ℓ} {S : Type ℓ} (src : Source S) (left : S → List ℕ) where
  moved :
      (s : S) (n : ℕ) (buf : List ℕ)
      → IsReader src left
      → (buf ++ (src.read_into s n).bytes) ++ left (src.read_into s n).next ≡ buf ++ left s
  moved s n buf reader =
      append_assoc buf (src.read_into s n).bytes (left (src.read_into s n).next)
      ∙ ap (λ l. buf ++ l) (sym (reader.in_order s n))

  onward :
      (c : CheckReader S) (r' : S) (buf buf' : List ℕ)
      → (result : Option (CheckReader S × Option StreamError)) → buf' ++ left r' ≡ buf ++ left c.r
      → Ends left (record c { r = r' }) buf' result
      → Ends left c buf result
  onward c r' buf buf' result kept (d, err, e, inl (a1, a2, a3, a4)) =
      (d, err, e, inl (a1, a2, a3 ∙ kept, a4))
  onward c r' buf buf' result kept (d, err, e, inr (seen, failure, b1, b2, b3, b4, b5)) =
      (d, err, e, inr (seen, failure, b1, b2, b3 ∙ kept, b4, b5))

  check_loop-Ends :
      (fuel : ℕ) (c : CheckReader S) (buf : List ℕ) (capacity : ℕ)
      → IsReader src left
      → length buf ≤ capacity
      → 1 ≤ fuel
      → probe_limit + 1 ≤ fuel + length buf
      → Ends left c buf (check_loop src fuel c buf capacity)
  unfolding check_loop
  check_loop-Ends zero c buf capacity reader small some_fuel enough =
      absurd (omega (arith, some_fuel))
  check_loop-Ends (suc fuel) c buf capacity reader small some_fuel enough =
      let room = if length buf == capacity then src.grown capacity else capacity in
      let got = src.read_into c.r (room - length buf) in
      let buf' = buf ++ got.bytes in
      let c' : CheckReader S = record c { r = got.next } in
      let final = has_error got.error || leb probe_limit (length buf') in
      let kept = moved c.r (room - length buf) buf reader in
      elim (Bool-cases (is_matched (c.self.detect buf' final))) [
        | inl known ↦ rw (known, check_loop) (_, none, refl, inl (refl, refl, kept, (final, known)))
        | inr unknown ↦ elim (Bool-cases final) [
          | inl over ↦
              let whole = subst (λ b. is_matched (c.self.detect buf' b) ≡ false) over unknown in
              rw (unknown, over, check_loop)
                (_, _, refl, inr (buf', got.error, refl, refl, kept, whole, over))
          | inr more ↦
              let open_room =
                room_lem buf capacity (src.grown capacity) small (reader.grows capacity) in
              let some_bytes =
                reader.lively c.r (room - length buf) open_room.0
                  (not_final (has_error got.error) (length buf') more).0 in
              let small' : length buf' ≤ room = omega (
                arith,
                open_room,
                length-append buf got.bytes,
                reader.fits c.r (room - length buf),
              ) in
              let below = (not_final (has_error got.error) (length buf') more).1 in
              let enough' : probe_limit + 1 ≤ fuel + length buf' =
                omega (arith, enough, some_bytes, length-append buf got.bytes) in
              rw (unknown, more, check_loop)
                (onward c got.next buf buf' _ kept (
                  check_loop-Ends fuel c' buf' room reader small' (omega (arith, enough', below))
                    enough'))
        ]
      ]

  -- Over a reader that gives its bytes in order, in each read no more than asked for and at least one
  -- of them or an error, with a buffer that grows when it is full: the check ends, whatever the stream.
  -- Either the own detector knows the format, and the bytes kept and those left are just those of the
  -- stream; or it does not know what was read, at the end of the stream or at the limit, and the error
  -- is about these bytes.
  pub check_lem : (c : CheckReader S) → IsReader src left → Ends left c [] (check src c)
  unfolding check
  check_lem c reader =
      check_loop-Ends (suc probe_limit) c [] 65536 reader (omega arith) (omega arith) (omega arith)

  -- The bytes that a caller of `Read` can still get.
  abbrev pub pending : CheckReader S → List ℕ
  pending c = c.probe ++ left c.r

  read_probed-in_order :
      (c : CheckReader S) (n : ℕ)
      → IsReader src left
      → (pending c ≡ (read_probed src c n).1 ++ pending (read_probed src c n).0)
        × ((read_probed src c n).0.is_checked ≡ c.is_checked)
  unfolding read_probed
  read_probed-in_order c n reader = elim (Bool-cases (ltb 0 (length c.probe))) [
    | inl kept ↦
        let parts = sym (append_assoc (take n c.probe) (drop n c.probe) (left c.r)) in
        rw (kept, read_probed)
          (ap (λ l. l ++ left c.r) (sym (take-drop n c.probe)) ∙ sym parts, refl)
    | inr spent ↦
        let empty = nothing_left c.probe spent in
        let got = src.read_into c.r n in
        rw (spent, read_probed)
          (
            ap (λ l. l ++ left c.r) empty
                ∙ reader.in_order c.r n
                ∙ ap (λ l. got.bytes ++ (l ++ left got.next)) (sym empty),
            refl,
          )
  ]

  -- Over a reader that gives its bytes in order, in each read no more than asked for and at least one
  -- of them or an error, with a buffer that grows when it is full, and of a checking reader whose probe
  -- is empty as long as it is not checked: every `Read` returns. Unless it refuses the stream, with no bytes and an error as `check` gives it,
  -- the reader is checked after it, and what it returned and what can still be read are just what could
  -- be read before.
  pub read_lem :
      (c : CheckReader S) (n : ℕ)
      → IsReader src left
      → (c.is_checked ≡ false → c.probe ≡ [])
      → (c' : CheckReader S) × (bytes : List ℕ) × (err : Option StreamError) × (read src c n
          ≡ some (c', bytes, err))
        × (((c'.is_checked ≡ true) × (pending c ≡ bytes ++ pending c'))
            ⊎ ((bytes ≡ []) × Refuses left c [] c' err))
  unfolding read
  read_lem c n reader fresh = elim (Bool-cases c.is_checked) [
    | inl checked ↦
        let (kept, same) = read_probed-in_order c n reader in
        (_, _, _, then_branch _ checked, inl (same ∙ checked, kept))
    | inr unchecked ↦
        let (c', err, found, verdict) = check_lem c reader in
        elim verdict [
          | inl (accepted, checked, whole, _) ↦
              let (kept, same) = read_probed-in_order c' n reader in
              let start = ap (λ l. l ++ left c.r) (fresh unchecked) in
              rw (unchecked, found, accepted, read)
                (_, _, _, refl, inl (same ∙ checked, start ∙ sym whole ∙ kept))
          | inr (seen, failure, refused, a, b, d, over) ↦
              let (e, fails) = refusal-some c.self c.others seen failure over in
              let some_error = refused ∙ fails in
              rw (unchecked, found, some_error, read)
                (_, _, _, refl, inr (refl, (seen, failure, sym fails, a ∙ unchecked, b, d, over)))
        ]
  ]
