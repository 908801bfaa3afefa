-- ===== src/Foundation/Crc32.antt =====
-- include/hal/foundation/crc32.hpp: the reflected CRC-32 with polynomial 0xEDB88320, bit by bit.
pub mod Serial
use ecu_drivers.Prelude.{
  ℕ, zero, suc, ◌-◌, ◌/◌, ◌^◌, ◌<◌, ◌≡◌, refl, bit_and, bit_xor, List, [], ◌∷◌, ◌++◌, arith,
  if◌then◌else◌,
}
use ecu_drivers.Prelude.Bits.{bit_xor-lt, bit_and-le_right}
use ecu_drivers.Foundation.Word.{u8, u32}
use ecu_drivers.Foundation.Span.{Span, valid, elements}

-- one round of the inner loop: the mask is all ones exactly when the low bit is set
pub crc_bit : ℕ → ℕ
crc_bit crc =
    let mask = u32 (2 ^ 32 - bit_and crc 1) in bit_xor (crc / 2) (bit_and 0xEDB8_8320 mask)

pub crc_bits : ℕ → ℕ → ℕ
crc_bits zero crc = crc
crc_bits (suc rounds) crc = crc_bits rounds (crc_bit crc)

-- one round of the outer loop
pub crc_byte : ℕ → ℕ → ℕ
crc_byte crc value = crc_bits 8 (bit_xor crc (u8 value))

pub crc_bytes : ℕ → List ℕ → ℕ
crc_bytes crc [] = crc
crc_bytes crc (value ∷ rest) = crc_bytes (crc_byte crc value) rest

-- `~crc`
abbrev pub complement32 : ℕ → ℕ
complement32 crc = bit_xor crc 0xFFFF_FFFF

-- over the elements of a valid span
pub crc32_of : List ℕ → ℕ
unfolding crc_bytes crc_byte crc_bits crc_bit
crc32_of data_bytes = complement32 (crc_bytes 0xFFFF_FFFF data_bytes)

abbrev pub crc32 : Span ℕ → ℕ
crc32 s = if valid s then crc32_of (elements s) else 0

-- The checksum of bytes that come in two runs goes on, in the second, from where the first has left
-- it.
pub crc_bytes-append :
    (crc : ℕ) (xs ys : List ℕ) → crc_bytes crc (xs ++ ys) ≡ crc_bytes (crc_bytes crc xs) ys
unfolding crc_bytes
crc_bytes-append crc [] ys = refl
crc_bytes-append crc (x ∷ xs) ys = crc_bytes-append (crc_byte crc x) xs ys

crc_bit-lt : (crc : ℕ) → crc < 2 ^ 32 → crc_bit crc < 2 ^ 32
unfolding crc_bit
crc_bit-lt crc h =
    bit_xor-lt 32 (crc / 2) (bit_and 0xEDB8_8320 (u32 (2 ^ 32 - bit_and crc 1))) (omega arith)
      (omega (arith, bit_and-le_right 0xEDB8_8320 (u32 (2 ^ 32 - bit_and crc 1))))

crc_bits-lt : (rounds crc : ℕ) → crc < 2 ^ 32 → crc_bits rounds crc < 2 ^ 32
unfolding crc_bits
crc_bits-lt zero crc h = h
crc_bits-lt (suc rounds) crc h = crc_bits-lt rounds (crc_bit crc) (crc_bit-lt crc h)

pub crc_bytes-lt : (crc : ℕ) (xs : List ℕ) → crc < 2 ^ 32 → crc_bytes crc xs < 2 ^ 32
unfolding crc_bytes crc_byte
crc_bytes-lt crc [] h = h
crc_bytes-lt crc (x ∷ xs) h =
    crc_bytes-lt (crc_bits 8 (bit_xor crc (u8 x))) xs
      (crc_bits-lt 8 (bit_xor crc (u8 x)) (bit_xor-lt 32 crc (u8 x) h (omega arith)))

-- The checksum of any bytes fits 32 bits.
pub crc32_of-lt : (xs : List ℕ) → crc32_of xs < 2 ^ 32
unfolding crc32_of
crc32_of-lt xs =
    bit_xor-lt 32 (crc_bytes 0xFFFF_FFFF xs) 0xFFFF_FFFF (crc_bytes-lt 0xFFFF_FFFF xs (omega arith))
      (omega arith)

pub crc_bytes-nil : (crc : ℕ) → crc_bytes crc [] ≡ crc
unfolding crc_bytes
crc_bytes-nil crc = refl

pub crc32_of_lem : (xs : List ℕ) → crc32_of xs ≡ complement32 (crc_bytes 0xFFFF_FFFF xs)
unfolding crc32_of
crc32_of_lem xs = refl

-- the check value of CRC-32: the digits 1 to 9 in ASCII
crc32_check_value :
    crc32_of (0x31 ∷ 0x32 ∷ 0x33 ∷ 0x34 ∷ 0x35 ∷ 0x36 ∷ 0x37 ∷ 0x38 ∷ 0x39 ∷ []) ≡ 0xCBF4_3926
unfolding crc32_of
crc32_check_value = refl
