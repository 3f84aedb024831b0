-- ===== src/Ts/Detector.antt =====
-- ts/detector.go: whether the start of a stream is a transport stream.
use mahiron.Prelude.{
  ℕ, zero, suc, ◌+◌, Bool, true, false, ◌&&◌, ◌||◌, not, List, leb, ltb, ◌==◌, min, if◌then◌else◌,
  length,
}
use mahiron.Packets.{Detector, Result, undecided, matched, rejected}
use mahiron.Ts.{byte_at}
pub mod Runs
pub mod Verdict
pub mod Checked

-- How many of the next `left` places, a stride apart, have a sync byte before one has none.
unfoldable pub count_syncs : ℕ → List ℕ → ℕ → ℕ → ℕ
count_syncs zero buf stride next = 0
count_syncs (suc left) buf stride next =
    let rest = count_syncs left buf stride (next + stride) in
    if ltb next (length buf) then (if byte_at buf next == 0x47 then suc rest else 0) else 0

-- Of `want` sync bytes, the first one at place `i + sync_offset`.
unfoldable pub is_run_at : List ℕ → ℕ → ℕ → ℕ → ℕ → Bool
unfolding count_syncs
is_run_at buf stride sync_offset want i =
    if leb (length buf) (i + sync_offset) || not (byte_at buf (i + sync_offset) == 0x47)
    then false
    else (elim want [
      | zero ↦ true
      | suc left ↦ leb (suc left) (1 + count_syncs left buf stride (i + stride + sync_offset))
    ])

-- The loop over the starts, of which `places` are left.
unfoldable pub scan_runs : ℕ → List ℕ → ℕ → ℕ → ℕ → ℕ → Bool
unfolding is_run_at
scan_runs zero buf stride sync_offset want i = false
scan_runs (suc places) buf stride sync_offset want i =
    is_run_at buf stride sync_offset want i || scan_runs places buf stride sync_offset want (i + 1)

unfoldable pub has_sync_run : List ℕ → ℕ → ℕ → ℕ → Bool
unfolding scan_runs
has_sync_run buf stride sync_offset want =
    scan_runs (min (length buf) 188) buf stride sync_offset want 0

-- The loop over `tsStrides`, which is written out.
unfoldable pub has_any_run : List ℕ → Bool
unfolding has_sync_run
has_any_run buf = has_sync_run buf 188 0 5 || (has_sync_run buf 192 4 5 || has_sync_run buf 204 0 5)

unfoldable pub detect : List ℕ → Bool → Result
unfolding has_any_run
detect buf final =
    if has_any_run buf
    then matched
    else (if final && (ltb 0 (length buf) && byte_at buf 0 == 0x47)
        then matched
        else (if final then rejected else undecided))

unfoldable pub ts_detector : Detector
ts_detector = record { name = "ts"; detect = detect }
