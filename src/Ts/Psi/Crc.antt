-- ===== src/Ts/Psi/Crc.antt =====
-- ts/section.go: a text that ends with its CRC passes the check.
use Prim.Native.Nat.{bit_xor}
use mahiron.Prelude.{
  ℕ, zero, suc, ◌*◌, ◌/◌, ◌%◌, ◌^◌, ◌<◌, ◌≡◌, refl, ◌∙◌, List, [], ◌∷◌, ◌++◌, inl, inr, Bool-cases,
  arith,
}
use mahiron.Prelude.Xor.{bit_xor_self, bit_xor-zero, bit_xor-lt-width}
use mahiron.Ts.{has_bit}
use mahiron.Ts.Sections.{crc_rounds, crc_from, crc32_mpeg2}
use mahiron.Ts.Psi.{u32_bytes}

crc_from-append :
    (xs ys : List ℕ) (crc : ℕ) → crc_from crc (xs ++ ys) ≡ crc_from (crc_from crc xs) ys
unfolding crc_from
crc_from-append [] ys crc = refl
crc_from-append (x ∷ xs) ys crc =
    let entry = crc_rounds 8 (bit_xor (crc / 2 ^ 24) x % 256 * 2 ^ 24) in
    crc_from-append xs ys (bit_xor (crc * 256 % 2 ^ 32) entry)

crc_from-nil : (crc : ℕ) → crc_from crc [] ≡ crc
unfolding crc_from
crc_from-nil crc = refl

is_uint32 : (a b : ℕ) → a < 2 ^ 32 → b < 2 ^ 32 → bit_xor a b < 2 ^ 32
is_uint32 a b p q = bit_xor-lt-width 32 a b p q

crc_rounds-lt : (n crc : ℕ) → crc < 2 ^ 32 → crc_rounds n crc < 2 ^ 32
crc_rounds-lt zero crc h = h
crc_rounds-lt (suc n) crc h = elim (Bool-cases (has_bit 0x80000000 crc)) [
  | inl out ↦ rw out (
      crc_rounds-lt n (bit_xor (crc * 2 % 2 ^ 32) 0x04c11db7)
        (is_uint32 (crc * 2 % 2 ^ 32) 0x04c11db7 (omega arith) (omega arith)))
  | inr stays ↦ rw stays (crc_rounds-lt n (crc * 2 % 2 ^ 32) (omega arith))
]

crc_from-lt : (bytes : List ℕ) (crc : ℕ) → crc < 2 ^ 32 → crc_from crc bytes < 2 ^ 32
unfolding crc_from
crc_from-lt [] crc h = h
crc_from-lt (b ∷ bytes) crc h =
    let entry = crc_rounds 8 (bit_xor (crc / 2 ^ 24) b % 256 * 2 ^ 24) in
    crc_from-lt bytes (bit_xor (crc * 256 % 2 ^ 32) entry)
      (is_uint32 (crc * 256 % 2 ^ 32) entry (omega arith) (crc_rounds-lt 8 _ (omega arith)))

-- The byte on top of the register takes itself out.
crc_from-top :
    (crc b : ℕ) (bytes : List ℕ)
    → crc / 2 ^ 24 ≡ b
    → crc_from crc (b ∷ bytes) ≡ crc_from (crc * 256 % 2 ^ 32) bytes
unfolding crc_from
crc_from-top crc b bytes top = rw (top, bit_xor_self b, bit_xor-zero (crc * 256 % 2 ^ 32))

crc_from-own : (crc : ℕ) → crc < 2 ^ 32 → crc_from crc (u32_bytes crc) ≡ 0
crc_from-own crc h =
    let b₁ = crc / 2 ^ 16 % 256 in
    let b₂ = crc / 2 ^ 8 % 256 in
    let b₃ = crc % 256 in
    let c₁ = crc * 256 % 2 ^ 32 in
    let c₂ = c₁ * 256 % 2 ^ 32 in
    let c₃ = c₂ * 256 % 2 ^ 32 in
    crc_from-top crc (crc / 2 ^ 24 % 256) (b₁ ∷ b₂ ∷ b₃ ∷ []) (omega arith)
    ∙ crc_from-top c₁ b₁ (b₂ ∷ b₃ ∷ []) (omega arith)
    ∙ crc_from-top c₂ b₂ (b₃ ∷ []) (omega arith)
    ∙ crc_from-top c₃ b₃ [] (omega arith)
    ∙ crc_from-nil (c₃ * 256 % 2 ^ 32)
    ∙ omega arith

-- The CRC of any bytes with their CRC behind them is 0.
pub crc32_mpeg2-append : (bytes : List ℕ) → crc32_mpeg2 (bytes ++ u32_bytes (crc32_mpeg2 bytes)) ≡ 0
unfolding crc32_mpeg2
crc32_mpeg2-append bytes =
    crc_from-append bytes (u32_bytes (crc_from 0xffffffff bytes)) 0xffffffff
    ∙ crc_from-own (crc_from 0xffffffff bytes) (crc_from-lt bytes 0xffffffff (omega arith))
