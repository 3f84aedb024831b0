-- ===== src/Prelude/Keys.antt =====
-- Lists of text keys.
use Prim.Native.Nat.{ℕ, ◌+◌}
use Prim.Native.String.{String}
use mathlib.Core.Bool.{Bool, true, false, ◌||◌, ◌&&◌}
use mathlib.Core.List.{List, [], ◌∷◌}
use text.Mathlib.Text.{◌==◌ as str_eq}
use mahiron.Prelude.Tests.{if◌then◌else◌}

-- How often a key stands in a list.
abbrev pub occurrences : String → List String → ℕ
occurrences k [] = 0
occurrences k (x ∷ xs) = (if str_eq x k then 1 else 0) + occurrences k xs

abbrev pub has_key : String → List String → Bool
has_key k [] = false
has_key k (x ∷ xs) = str_eq x k || has_key k xs

-- Some, or every, key passes a test.
abbrev pub any_key : (String → Bool) → List String → Bool
any_key p [] = false
any_key p (x ∷ xs) = p x || any_key p xs

abbrev pub all_keys : (String → Bool) → List String → Bool
all_keys p [] = true
all_keys p (x ∷ xs) = p x && all_keys p xs
