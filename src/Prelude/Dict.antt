-- ===== src/Prelude/Dict.antt =====
-- Go maps that the code iterates over: their entries, each key once. The order of the entries is one
-- of those that Go may choose.
use Prim.Native.Nat.{ℕ}
use mathlib.Core.Path.{◌≡◌, refl}
use mathlib.Core.Bool.{Bool}
use mathlib.Core.Option.{Option, none, some}
use mathlib.Core.List.{List, [], ◌∷◌}
use native.Mathlib.Omega.{arith}
use mahiron.Prelude.Tests.{if◌then◌else◌, ◌==◌}

abbrev pub Dict {ℓ} : Type ℓ → Type ℓ
Dict V = List (ℕ × V)

module _ {ℓ} {V : Type ℓ} where
  abbrev pub lookup : ℕ → Dict V → Option V
  lookup k [] = none
  lookup k ((j, v) ∷ d) = if k == j then some v else lookup k d

  abbrev pub insert : ℕ → V → Dict V → Dict V
  insert k v [] = (k, v) ∷ []
  insert k v ((j, w) ∷ d) = if k == j then (k, v) ∷ d else (j, w) ∷ insert k v d

  -- The entries whose keys pass a test.
  abbrev pub keep_keys : (ℕ → Bool) → Dict V → Dict V
  keep_keys p [] = []
  keep_keys p ((j, w) ∷ d) = let rest = keep_keys p d in if p j then (j, w) ∷ rest else rest

  pub lookup-insert :
      (j k : ℕ) (v : V) (d : Dict V)
      → lookup j (insert k v d) ≡ (if j == k then some v else lookup j d)
  lookup-insert j k v [] = refl
  lookup-insert j k v ((i, w) ∷ d) = ground (arith, lookup-insert j k v d)

  pub lookup-keep_keys :
      (p : ℕ → Bool) (j : ℕ) (d : Dict V)
      → lookup j (keep_keys p d) ≡ (if p j then lookup j d else none)
  lookup-keep_keys p j [] = ground arith
  lookup-keep_keys p j ((i, w) ∷ d) = ground (arith, lookup-keep_keys p j d)

  abbrev pub NodupKeys : Dict V → Type ℓ
  NodupKeys [] = Unit
  NodupKeys ((k, v) ∷ d) = (lookup k d ≡ none) × NodupKeys d

  pub insert-NodupKeys : (k : ℕ) (v : V) (d : Dict V) → NodupKeys d → NodupKeys (insert k v d)
  insert-NodupKeys k v [] u = (refl, tt)
  insert-NodupKeys k v ((j, w) ∷ d) (fresh, u) =
      ground (arith, insert-NodupKeys k v d u, lookup-insert j k v d)

  pub keep_keys-NodupKeys : (p : ℕ → Bool) (d : Dict V) → NodupKeys d → NodupKeys (keep_keys p d)
  keep_keys-NodupKeys p [] u = tt
  keep_keys-NodupKeys p ((j, w) ∷ d) (fresh, u) =
      ground (arith, keep_keys-NodupKeys p d u, lookup-keep_keys p j d)
