-- ===== src/Prelude/Maps.antt =====
-- Go maps with a zero value, as total functions: a missing key reads as the zero value.
use Prim.Native.Nat.{ℕ}
use Prim.Native.String.{String}
use mathlib.Core.Path.{◌≡◌, sym, ap, ◌∙◌, fun_ext}
use mathlib.Core.Logic.{inl, inr}
use text.Mathlib.Text.{◌==◌ as str_eq}
use mahiron.Prelude.Tests.{if◌then◌else◌, ◌==◌, ==_refl, ==→eq, Bool-cases}

module _ {ℓ} {V : Type ℓ} where
  -- `m[k] = v`
  abbrev pub put : (ℕ → V) → ℕ → V → ℕ → V
  put m k v j = if k == j then v else m j

  abbrev pub put_str : (String → V) → String → V → String → V
  put_str m k v j = if str_eq k j then v else m j

  pub put_self : (m : ℕ → V) (k : ℕ) (v : V) → put m k v k ≡ v
  put_self m k v = rw (==_refl k)

  -- Writing what is there already changes nothing.
  pub put_same : (m : ℕ → V) (k : ℕ) (v : V) → m k ≡ v → put m k v ≡ m
  put_same m k v e = fun_ext λ j. elim (Bool-cases (k == j)) [
    | inl here ↦ rw here (sym e ∙ ap m (==→eq k j here))
    | inr away ↦ rw away
  ]

  pub put_twice : (m : ℕ → V) (k : ℕ) (v : V) → put (put m k v) k v ≡ put m k v
  put_twice m k v = put_same (put m k v) k v (put_self m k v)
