-- ===== src/Tests/Streams.antt =====
-- ts/packet.go and ts/detector.go, the packet reader and the detector, run.
use mahiron.Prelude.{
  Option, length-take_le, ◌↔◌, ◌⊎◌, ◌≢◌, ℕ, zero, suc, ◌+◌, ◌≤◌, ◌≡◌, refl, sym, true, false,
  String, none, some, some_eq, List, [], ◌∷◌, ◌++◌, length, take, drop, replicate, take-drop, inl,
  arith,
}
use mahiron.Packets.{
  has_error, undecided, matched, rejected, Detector, Source, CheckReader, StreamError,
  new_check_reader, check,
}
use mahiron.Packets.Checked.{IsReader, Accepts}
use mahiron.Ts.Detector.Checked.{FailsAtOnce, check_of_sync}
use mahiron.Ts.Detector.{detect, ts_detector}
use mahiron.Ts.Detector.Runs.{SyncAt}
use mahiron.Ts.Detector.Verdict.{HasPackets, detect_lem}
use mahiron.Ts.Reader.{Reading, packet, failure, new_packet_reader, next_into}
use mahiron.Ts.Reader.Kept.{IsByteReader}
use mahiron.Ts.Reader.Returned.{next_into-Returns}
use mahiron.Ts.Reader.Found.{Returns}
use mahiron.Ts.Reader.Synced.{joined, AllPackets}
use mahiron.Ts.Reader.Plain.{IsFinite, OnPackets}
use mahiron.Ts.Reader.Aligned.{next_each, next_each-joined}

-- A list of bytes, read from its start.
abbrev list_reader : Reading (List ℕ)
list_reader s n = elim s [
  | [] ↦ record { bytes = []; error = some "EOF"; next = [] }
  | b ∷ bytes ↦ record { bytes = take n (b ∷ bytes); error = none; next = drop n (b ∷ bytes) }
]

list_reader-IsByteReader : IsByteReader list_reader (λ s. s)
list_reader-IsByteReader = record { in_order = in_order; lively = lively }
  where
    in_order : (s : List ℕ) (n : ℕ) → s ≡ (list_reader s n).bytes ++ (list_reader s n).next
    in_order [] n = refl
    in_order (b ∷ bytes) n = sym (take-drop n (b ∷ bytes))

    lively :
        (s : List ℕ) (n : ℕ)
        → 1 ≤ n
        → has_error (list_reader s n).error ≡ false
        → 1 ≤ length (list_reader s n).bytes
    lively [] n some_room fine = absurd cc
    lively (b ∷ bytes) zero some_room fine = absurd (omega (arith, some_room))
    lively (b ∷ bytes) (suc n) some_room fine = omega arith

list_reader-IsFinite : IsFinite list_reader (λ s. s)
list_reader-IsFinite = record { error_at_end = at_end }
  where
    at_end :
        (s : List ℕ) (n : ℕ) (e : String)
        → (list_reader s n).error ≡ some e
        → (e ≡ "EOF") × ((list_reader s n).next ≡ [])
    at_end [] n e failed = (sym (some_eq "EOF" e failed), refl)
    at_end (b ∷ bytes) n e failed = absurd cc

abbrev packet_of : ℕ → List ℕ
packet_of n = 0x47 ∷ replicate 187 n

abbrev with_garbage : List ℕ
with_garbage = 1 ∷ 0x47 ∷ 2 ∷ (packet_of 3 ++ packet_of 4)

next_into-Returns_example :
    Returns
      (λ s. s)
      (new_packet_reader with_garbage)
      (next_into list_reader
        (length with_garbage + 1)
        (length with_garbage + 2)
        (new_packet_reader with_garbage)
        188)
unfolding new_packet_reader
next_into-Returns_example =
    next_into-Returns list_reader (λ s. s) list_reader-IsByteReader (length with_garbage + 1)
      (length with_garbage + 2) 188 (new_packet_reader with_garbage) (omega arith) (inl refl)
      (omega arith) (omega arith)

two_packets-AllPackets : AllPackets (packet_of 3 ∷ packet_of 4 ∷ [])
two_packets-AllPackets = ((refl, refl), ((refl, refl), tt))

two_packets_joined : packet_of 3 ++ (packet_of 4 ++ []) ≡ joined (packet_of 3 ∷ packet_of 4 ∷ [])
unfolding joined
two_packets_joined = refl

new-OnPackets :
    OnPackets list_reader (λ s. s) (new_packet_reader (packet_of 3 ++ (packet_of 4 ++ [])))
unfolding new_packet_reader
new-OnPackets = record { plain = inl refl; at_end = λ e failed. absurd cc }

next_each-joined_example :
    next_each list_reader 1 1 188 3 (new_packet_reader (packet_of 3 ++ (packet_of 4 ++ [])))
    ≡ some (packet (packet_of 3) ∷ packet (packet_of 4) ∷ failure "EOF" ∷ [])
unfolding new_packet_reader
next_each-joined_example =
    next_each-joined list_reader (λ s. s) 1 1 188
      (new_packet_reader (packet_of 3 ++ (packet_of 4 ++ []))) (packet_of 3 ∷ packet_of 4 ∷ [])
      list_reader-IsByteReader list_reader-IsFinite new-OnPackets (omega arith) (omega arith)
      (omega arith) two_packets-AllPackets two_packets_joined

abbrev five_packets : List ℕ
five_packets = 9 ∷ (packet_of 1 ++ (packet_of 2 ++ (packet_of 3 ++ (packet_of 4 ++ packet_of 5))))

detect_lem_example :
    ((detect five_packets false ≡ matched)
      ↔ (HasPackets five_packets ⊎ ((false ≡ true) × SyncAt five_packets 0)))
    × (false ≡ true → detect five_packets false ≢ undecided)
    × (false ≡ false → detect five_packets false ≢ rejected)
detect_lem_example = detect_lem five_packets false

five_packets_matched : detect five_packets false ≡ matched
unfolding detect
five_packets_matched = refl

one_packet_undecided : detect (packet_of 1) false ≡ undecided
unfolding detect
one_packet_undecided = refl

one_packet_at_end : detect (packet_of 1) true ≡ matched
unfolding detect
one_packet_at_end = refl

abbrev with_parity : List ℕ
with_parity = packet_of 1 ++ replicate 16 0

-- Packets with parity are found from each of the first 188 places on, and not from the next ones.
late_packets_rejected :
    detect
      (replicate 190 0
        ++ (with_parity ++ (with_parity ++ (with_parity ++ (with_parity ++ with_parity)))))
      true
    ≡ rejected
unfolding detect
late_packets_rejected = refl

early_packets_matched :
    detect
      (replicate 187 0
        ++ (with_parity ++ (with_parity ++ (with_parity ++ (with_parity ++ with_parity)))))
      true
    ≡ matched
unfolding detect
early_packets_matched = refl

abbrev list_source : Source (List ℕ)
list_source = record { read_into = list_reader; grown = λ capacity. capacity + capacity + 1 }

list_source-IsReader : IsReader list_source (λ s. s)
list_source-IsReader = record {
  in_order = list_reader-IsByteReader.in_order;
  fits = fits;
  lively = list_reader-IsByteReader.lively;
  grows = λ capacity. omega arith;
}
  where
    fits : (s : List ℕ) (n : ℕ) → length (list_reader s n).bytes ≤ n
    fits [] n = omega arith
    fits (b ∷ bytes) n = length-take_le n (b ∷ bytes)

-- Another detector knows anything.
abbrev any_detector : Detector
any_detector = record { name = "any"; detect = λ buf final. matched }

abbrev checked_stream : CheckReader (List ℕ)
checked_stream = new_check_reader (packet_of 3 ++ packet_of 4) ts_detector (any_detector ∷ [])

check_of_sync_example :
    (c' : CheckReader (List ℕ)) × (err : Option StreamError) × (check list_source checked_stream
      ≡ some (c', err))
    × (Accepts (λ s. s) checked_stream [] c' err ⊎ FailsAtOnce (λ s. s) checked_stream c' err)
unfolding new_check_reader
check_of_sync_example =
    check_of_sync list_source (λ s. s) checked_stream list_source-IsReader refl (omega arith, refl)
