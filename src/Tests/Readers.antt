-- ===== src/Tests/Readers.antt =====
-- packet/packet.go, run.
use mahiron.Prelude.{
  take-drop, length-take_le, ℕ, zero, suc, ◌+◌, ◌≤◌, ◌≡◌, ◌⊎◌, refl, sym, true, false, Option, none,
  some, List, [], ◌∷◌, ◌++◌, leb, if◌then◌else◌, length, take, drop, String, Bool, arith,
}
use mahiron.Packets.{
  Detector, Result, undecided, matched, rejected, StreamError, mismatch, Source, CheckReader,
  new_check_reader, check, read, has_error,
}
use mahiron.Packets.Checked.{IsReader, Refuses, Ends, check_lem, read_lem}

abbrev end_of_file : List ℕ → Option String
end_of_file [] = some "EOF"
end_of_file (x ∷ xs) = none

-- A reader of bytes that are in memory; a buffer's capacity is doubled.
abbrev memory : Source (List ℕ)
memory = record {
  read_into = λ s n. record { bytes = take n s; error = end_of_file s; next = drop n s };
  grown = λ capacity. capacity + capacity + 1;
}

abbrev all : List ℕ → List ℕ
all s = s

take-lively :
    (n : ℕ) (l : List ℕ) → 1 ≤ n → has_error (end_of_file l) ≡ false → 1 ≤ length (take n l)
take-lively zero l h more = absurd (omega (arith, h))
take-lively (suc n) [] h more = absurd (ground (arith, more))
take-lively (suc n) (x ∷ xs) h more = omega arith

memory-IsReader : IsReader memory all
memory-IsReader = record {
  in_order = λ s n. sym (take-drop n s);
  fits = λ s n. length-take_le n s;
  lively = λ s n h more. take-lively n s h more;
  grows = λ capacity. omega arith;
}

-- Knows a format by its first byte, once two bytes are there.
abbrev starts_with : ℕ → List ℕ → Bool → Result
starts_with byte [] final = if final then rejected else undecided
starts_with byte (x ∷ []) final = if final then rejected else undecided
starts_with byte (x ∷ y ∷ rest) final =
    if leb x byte then (if leb byte x then matched else rejected) else rejected

abbrev ts_detector : Detector
ts_detector = record { name = "ts"; detect = starts_with 71 }

abbrev tlv_detector : Detector
tlv_detector = record { name = "tlv"; detect = starts_with 127 }

abbrev ts_reader : CheckReader (List ℕ)
ts_reader = record {
  r = 71 ∷ 1 ∷ 2 ∷ 3 ∷ [];
  self = ts_detector;
  others = tlv_detector ∷ [];
  is_checked = false;
  probe = [];
}

ts_reader-is_new :
    new_check_reader (71 ∷ 1 ∷ 2 ∷ 3 ∷ []) ts_detector (tlv_detector ∷ []) ≡ ts_reader
unfolding new_check_reader
ts_reader-is_new = refl

abbrev tlv_reader : CheckReader (List ℕ)
tlv_reader = record ts_reader { r = 127 ∷ 1 ∷ [] }

-- The first three bytes.
passed_on :
    read memory ts_reader 3
    ≡ some (record ts_reader { r = []; is_checked = true; probe = 3 ∷ [] }, 71 ∷ 1 ∷ 2 ∷ [], none)
unfolding read
passed_on = refl

-- A stream of another format is named.
other_format :
    read memory tlv_reader 3 ≡ some (record tlv_reader { r = [] }, [], some (mismatch "ts" "tlv"))
unfolding read
other_format = refl

check_lem_example : Ends all tlv_reader [] (check memory tlv_reader)
check_lem_example = check_lem memory all tlv_reader memory-IsReader

read_lem_example :
    (c' : CheckReader (List ℕ)) × (bytes : List ℕ) × (err : Option StreamError) × (read memory
        ts_reader 3
      ≡ some (c', bytes, err))
    × (((c'.is_checked ≡ true) × (71 ∷ 1 ∷ 2 ∷ 3 ∷ [] ≡ bytes ++ (c'.probe ++ c'.r)))
        ⊎ ((bytes ≡ []) × Refuses all ts_reader [] c' err))
read_lem_example = read_lem memory all ts_reader 3 memory-IsReader (λ h. refl)
