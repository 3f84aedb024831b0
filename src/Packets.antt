-- ===== src/Packets.antt =====
-- packet/packet.go: the reader that checks the packet format at the start of a stream.
use mahiron.Prelude.{
  ℕ, zero, suc, ◌-◌, ◌*◌, String, Bool, true, false, ◌||◌, Option, none, some, List, [], ◌∷◌, ◌++◌,
  ltb, leb, ◌==◌, if◌then◌else◌, length, take, drop,
}
pub mod Checked

-- Of `Detect`.
pub data Result : Type 0 where
  undecided : Result
  matched : Result
  rejected : Result

unfoldable pub is_matched : Result → Bool
is_matched undecided = false
is_matched matched = true
is_matched rejected = false

-- `detect` takes the bytes read so far, and whether no more come.
pub record Detector : Type 0 where
  pub name : String
  pub detect : List ℕ → Bool → Result

-- An error of the reader below, as its text, or one about the format.
pub data StreamError : Type 0 where
  read_error : String → StreamError
  mismatch : String → String → StreamError
  unknown_format : String → StreamError

-- What a `Read` of the reader below returns, and its state after it.
pub record ReadResult {ℓ} (S : Type ℓ) : Type ℓ where
  pub bytes : List ℕ
  pub error : Option String
  pub next : S

-- The reader below: `read` into room for so many bytes, and the capacity that `append` gives a full
-- buffer.
pub record Source {ℓ} (S : Type ℓ) : Type ℓ where
  pub read_into : S → ℕ → ReadResult S
  pub grown : ℕ → ℕ

pub record CheckReader {ℓ} (S : Type ℓ) : Type ℓ where
  pub r : S
  pub self : Detector
  pub others : List Detector
  pub is_checked : Bool
  pub probe : List ℕ

abbrev pub probe_limit : ℕ
probe_limit = 262144

unfoldable pub new_check_reader {ℓ} : {S : Type ℓ} → S → Detector → List Detector → CheckReader S
new_check_reader r self others = record {
  r = r;
  self = self;
  others = others;
  is_checked = false;
  probe = [];
}

unfoldable pub mismatch_or_unknown : Detector → List Detector → List ℕ → StreamError
unfolding is_matched
mismatch_or_unknown self [] buf = unknown_format self.name
mismatch_or_unknown self (other ∷ others) buf =
    if is_matched (other.detect buf true)
    then mismatch self.name other.name
    else mismatch_or_unknown self others buf

abbrev pub has_error : Option String → Bool
has_error none = false
has_error (some e) = true

abbrev pub read_failure : Option String → Option StreamError
read_failure none = none
read_failure (some e) = some (read_error e)

-- The error of a check that ends without a match.
unfoldable pub refusal : Detector → List Detector → List ℕ → Option String → Option StreamError
unfolding mismatch_or_unknown
refusal self others buf err =
    if length buf == 0 then read_failure err else some (mismatch_or_unknown self others buf)

-- The loop of `check`, on fuel; `none` is out of fuel.
unfoldable pub check_loop {ℓ} :
    {S : Type ℓ}
    → Source S
    → ℕ
    → CheckReader S
    → List ℕ
    → ℕ
    → Option (CheckReader S × Option StreamError)
unfolding is_matched refusal
check_loop src zero c buf cap = none
check_loop src (suc fuel) c buf cap =
    let room = if length buf == cap then src.grown cap else cap in
    let got = src.read_into c.r (room - length buf) in
    let buf' = buf ++ got.bytes in
    let c' : CheckReader _ = record c { r = got.next } in
    let final = has_error got.error || leb probe_limit (length buf') in
    elim (is_matched (c.self.detect buf' final)) [
      | true ↦ some (record c' { is_checked = true; probe = buf' }, none)
      | false ↦ elim final [
        | true ↦ some (c', refusal c.self c.others buf' got.error)
        | false ↦ check_loop src fuel c' buf' room
      ]
    ]

unfoldable pub check {ℓ} :
    {S : Type ℓ} → Source S → CheckReader S → Option (CheckReader S × Option StreamError)
unfolding check_loop
check src c = check_loop src (suc probe_limit) c [] 65536

-- A read once the format is known.
unfoldable pub read_probed {ℓ} :
    {S : Type ℓ} → Source S → CheckReader S → ℕ → CheckReader S × List ℕ × Option StreamError
read_probed src c n =
    if ltb 0 (length c.probe)
    then (record c { probe = drop n c.probe }, take n c.probe, none)
    else (let got = src.read_into c.r n in
        (record c { r = got.next }, got.bytes, read_failure got.error))

-- `Read` into a slice of length `n`.
unfoldable pub read {ℓ} :
    {S : Type ℓ}
    → Source S
    → CheckReader S
    → ℕ
    → Option (CheckReader S × List ℕ × Option StreamError)
unfolding check read_probed
read src c n = if c.is_checked then some (read_probed src c n) else elim (check src c) [
  | none ↦ none
  | some (c', some e) ↦ some (c', [], some e)
  | some (c', none) ↦ some (read_probed src c' n)
]
