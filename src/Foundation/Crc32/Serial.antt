-- ===== src/Foundation/Crc32/Serial.antt =====
-- The checksum of include/hal/foundation/crc32.hpp as the register of a serial line computes it, one
-- bit of the message at a time.
use native.Mathlib.Nat.{mod-eq_of_lt, pow-suc}
use ecu_drivers.Prelude.{
  ℕ, zero, suc, ◌-◌, ◌/◌, ◌%◌, ◌^◌, ◌<◌, ◌≡◌, refl, ◌∙◌, sym, ap, inl, inr, bit_and, bit_xor, List,
  [], ◌∷◌, ◌++◌, ◌==◌, arith, if◌then◌else◌, Bool-cases,
}
use ecu_drivers.Prelude.Bits.{
  bit_xor_parts, bit_xor_swap, bit_xor_even, bit_xor_odd, bit_xor-zero_right, bit_and-one,
}
use ecu_drivers.Foundation.Word.{u32}
use ecu_drivers.Foundation.Span
use ecu_drivers.Foundation.Crc32.{crc_bit, crc_bits, crc_byte, crc_bytes, crc32_of, crc32}

-- the bits of a number, the lowest first
abbrev pub bits_of : ℕ → ℕ → List ℕ
bits_of zero value = []
bits_of (suc n) value = value % 2 ∷ bits_of n (value / 2)

abbrev pub message_bits : List ℕ → List ℕ
message_bits [] = []
message_bits (x ∷ xs) = bits_of 8 x ++ message_bits xs

-- The register moves one place down, and takes the polynomial when the bit that falls out of it is
-- not the bit that comes in.
abbrev pub feed : ℕ → ℕ → ℕ
feed register bit = if register % 2 == bit then register / 2 else bit_xor (register / 2) 0xEDB8_8320

abbrev pub feed_all : ℕ → List ℕ → ℕ
feed_all register [] = register
feed_all register (bit ∷ bits) = feed_all (feed register bit) bits

abbrev pub IsBytes : List ℕ → Type 0
IsBytes [] = Unit
IsBytes (x ∷ xs) = (x < 2 ^ 8) × IsBytes xs

feed_all-append :
    (register : ℕ) (xs ys : List ℕ)
    → feed_all register (xs ++ ys) ≡ feed_all (feed_all register xs) ys
feed_all-append register [] ys = refl
feed_all-append register (x ∷ xs) ys = feed_all-append (feed register x) xs ys

crc_bit_even : (x : ℕ) → x % 2 ≡ 0 → crc_bit x ≡ x / 2
unfolding crc_bit
crc_bit_even x e =
    ap (λ (t : ℕ). bit_xor (x / 2) (bit_and 0xEDB8_8320 (u32 (2 ^ 32 - t)))) (bit_and-one x ∙ e)
    ∙ bit_xor-zero_right (x / 2)

crc_bit_odd : (x : ℕ) → x % 2 ≡ 1 → crc_bit x ≡ bit_xor (x / 2) 0xEDB8_8320
unfolding crc_bit
crc_bit_odd x e =
    ap (λ (t : ℕ). bit_xor (x / 2) (bit_and 0xEDB8_8320 (u32 (2 ^ 32 - t)))) (bit_and-one x ∙ e)

-- the round of the code on a register that already holds the bits to come
crc_bit-feed : (c v : ℕ) → crc_bit (bit_xor c v) ≡ bit_xor (feed c (v % 2)) (v / 2)
crc_bit-feed c v = elim (Bool-cases (c % 2 == v % 2)) [
  | inl same ↦
      rw same (
        crc_bit_even (bit_xor c v) (bit_xor_even c v (ground (arith, same)))
        ∙ (bit_xor_parts c v).0)
  | inr other ↦ rw other (
      crc_bit_odd (bit_xor c v) (bit_xor_odd c v (λ e. ground (arith, e, other)))
      ∙ ap (λ (t : ℕ). bit_xor t 0xEDB8_8320) (bit_xor_parts c v).0
      ∙ bit_xor_swap (c / 2) (v / 2) 0xEDB8_8320)
]

crc_bits-feed : (n c v : ℕ) → v < 2 ^ n → crc_bits n (bit_xor c v) ≡ feed_all c (bits_of n v)
unfolding crc_bits
crc_bits-feed zero c v h =
    ap (λ (t : ℕ). bit_xor c t) (let e : v ≡ 0 = omega arith in e) ∙ bit_xor-zero_right c
crc_bits-feed (suc n) c v h =
    ap (crc_bits n) (crc_bit-feed c v)
    ∙ crc_bits-feed n (feed c (v % 2)) (v / 2) (omega (arith, pow-suc 2 n))

crc_bytes-feed : (c : ℕ) (xs : List ℕ) → IsBytes xs → crc_bytes c xs ≡ feed_all c (message_bits xs)
unfolding crc_bytes crc_byte
crc_bytes-feed c [] h = refl
crc_bytes-feed c (x ∷ xs) h =
    ap (λ (t : ℕ). crc_bytes (crc_bits 8 (bit_xor c t)) xs) (mod-eq_of_lt h.0)
    ∙ ap (λ (t : ℕ). crc_bytes t xs) (crc_bits-feed 8 c x h.0)
    ∙ crc_bytes-feed (feed_all c (bits_of 8 x)) xs h.1
    ∙ sym (feed_all-append c (bits_of 8 x) (message_bits xs))

-- The checksum of bytes is what a serial register holds, each bit turned round, that starts with all
-- ones and is fed the eight bits of each byte in turn, the lowest first.
pub crc32_serial :
    (xs : List ℕ)
    → IsBytes xs
    → crc32 (Span.view xs) ≡ bit_xor (feed_all (2 ^ 32 - 1) (message_bits xs)) (2 ^ 32 - 1)
unfolding crc32_of
crc32_serial xs h = ap (λ (t : ℕ). bit_xor t (2 ^ 32 - 1)) (crc_bytes-feed (2 ^ 32 - 1) xs h)
