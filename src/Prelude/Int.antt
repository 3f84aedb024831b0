-- ===== src/Prelude/Int.antt =====
-- Go's signed integers, where only their order matters: `negsuc n` is -(n + 1).
use Prim.Native.Nat.{ℕ, zero, suc}
use mathlib.Core.Path.{◌≡◌, refl}
use native.Mathlib.Omega.{arith}
use mathlib.Core.Bool.{Bool, true, false}
use mahiron.Prelude.Tests.{ltb}

pub data ℤ : Type 0 where
  pos : ℕ → ℤ
  negsuc : ℕ → ℤ

-- `a < b`
abbrev pub ltb_ℤ : ℤ → ℤ → Bool
ltb_ℤ (pos a) (pos b) = ltb a b
ltb_ℤ (pos a) (negsuc b) = false
ltb_ℤ (negsuc a) (pos b) = true
ltb_ℤ (negsuc a) (negsuc b) = ltb b a

-- A value that is not positive is replaced.
abbrev pub or_default : ℤ → ℕ → ℕ
or_default (pos zero) otherwise = otherwise
or_default (pos (suc n)) otherwise = suc n
or_default (negsuc n) otherwise = otherwise

pub ltb_ℤ_trans : (a b c : ℤ) → ltb_ℤ a b ≡ true → ltb_ℤ b c ≡ true → ltb_ℤ a c ≡ true
ltb_ℤ_trans (pos a) (pos b) (pos c) h k = ground arith
ltb_ℤ_trans (pos a) (pos b) (negsuc c) h k = cc
ltb_ℤ_trans (pos a) (negsuc b) c h k = cc
ltb_ℤ_trans (negsuc a) (pos b) (pos c) h k = refl
ltb_ℤ_trans (negsuc a) (pos b) (negsuc c) h k = cc
ltb_ℤ_trans (negsuc a) (negsuc b) (pos c) h k = refl
ltb_ℤ_trans (negsuc a) (negsuc b) (negsuc c) h k = ground arith

-- From `b ≤ a` and `a < c`.
pub ltb_ℤ_of_le : (a b c : ℤ) → ltb_ℤ a b ≡ false → ltb_ℤ a c ≡ true → ltb_ℤ b c ≡ true
ltb_ℤ_of_le (pos a) (pos b) (pos c) h k = ground arith
ltb_ℤ_of_le (pos a) b (negsuc c) h k = cc
ltb_ℤ_of_le (pos a) (negsuc b) (pos c) h k = refl
ltb_ℤ_of_le (negsuc a) (pos b) c h k = cc
ltb_ℤ_of_le (negsuc a) (negsuc b) (pos c) h k = refl
ltb_ℤ_of_le (negsuc a) (negsuc b) (negsuc c) h k = ground arith

pub ltb_ℤ_irrefl : (a : ℤ) → ltb_ℤ a a ≡ false
ltb_ℤ_irrefl (pos a) = ground arith
ltb_ℤ_irrefl (negsuc a) = ground arith

-- From `a < b` and `b ≤ c`.
pub ltb_ℤ_le_trans : (a b c : ℤ) → ltb_ℤ a b ≡ true → ltb_ℤ c b ≡ false → ltb_ℤ a c ≡ true
ltb_ℤ_le_trans (pos a) (pos b) (pos c) h k = ground arith
ltb_ℤ_le_trans (pos a) (pos b) (negsuc c) h k = cc
ltb_ℤ_le_trans (pos a) (negsuc b) c h k = cc
ltb_ℤ_le_trans (negsuc a) (pos b) (pos c) h k = refl
ltb_ℤ_le_trans (negsuc a) (pos b) (negsuc c) h k = cc
ltb_ℤ_le_trans (negsuc a) (negsuc b) (pos c) h k = refl
ltb_ℤ_le_trans (negsuc a) (negsuc b) (negsuc c) h k = ground arith
