-- ===== src/Nv/Journal/Bytes/Fields.antt =====
-- Reading back what a field writer wrote, at the field and in front of later writes.
use ecu_drivers.Prelude.{
  ℕ, zero, suc, refl, true, false, [], ◌∷◌, replicate, get_or, ◌+◌, ◌*◌, ◌^◌, ◌≤◌, ◌<◌, ◌≡◌, ◌∙◌,
  ap, bit_or, List, arith, length, store, length-store, get_or-store_at, get_or-store_before,
}
use ecu_drivers.Prelude.Bits.{bit_or_high}
use ecu_drivers.Nv.Journal.Bytes.{
  put_u16, put_u32, put_u64, get_u16, get_u32, get_u64, byte_at, byte_of, le_bytes16, le_bytes32,
  le_bytes64, all_erased,
}

-- Fields of disjoint bytes, joined by `|`, add up.
join16 : (a b : ℕ) → a < 256 → bit_or a (b * 2 ^ 8) ≡ a + b * 2 ^ 8
join16 a b h = bit_or_high 8 a b (omega arith)

join32 :
    (a b c d : ℕ)
    → a < 256
    → b < 256
    → c < 256
    → bit_or (bit_or (bit_or a (b * 2 ^ 8)) (c * 2 ^ 16)) (d * 2 ^ 24)
      ≡ a + b * 2 ^ 8 + c * 2 ^ 16 + d * 2 ^ 24
join32 a b c d ha hb hc = rw (join16 a b ha) (
    rw (bit_or_high 16 (a + b * 2 ^ 8) c (omega arith))
      (bit_or_high 24 (a + b * 2 ^ 8 + c * 2 ^ 16) d (omega arith)))

-- the upper half of a 64-bit field, onto a lower half
join64 :
    (r a b c d : ℕ)
    → r < 2 ^ 32
    → a < 256
    → b < 256
    → c < 256
    → bit_or (bit_or (bit_or (bit_or r (a * 2 ^ 32)) (b * 2 ^ 40)) (c * 2 ^ 48)) (d * 2 ^ 56)
      ≡ r + a * 2 ^ 32 + b * 2 ^ 40 + c * 2 ^ 48 + d * 2 ^ 56
join64 r a b c d hr ha hb hc = rw (bit_or_high 32 r a hr) (
    rw (bit_or_high 40 (r + a * 2 ^ 32) b (omega arith)) (
      rw (bit_or_high 48 (r + a * 2 ^ 32 + b * 2 ^ 40) c (omega arith))
        (bit_or_high 56 (r + a * 2 ^ 32 + b * 2 ^ 40 + c * 2 ^ 48) d (omega arith))))

-- the first byte of a stored run stands at its offset
stored_first :
    (xs : List ℕ) (i : ℕ) (vs : List ℕ)
    → i + length vs ≤ length xs
    → 0 < length vs
    → byte_at (store xs i vs) i ≡ byte_at vs 0
stored_first xs i vs fits h =
    ap (λ (j : ℕ). byte_at (store xs i vs) j) (omega arith) ∙ get_or-store_at xs i vs 0 0 fits h

pub get_u16-put_u16 :
    (xs : List ℕ) (offset value : ℕ)
    → offset + 2 ≤ length xs
    → value < 2 ^ 16
    → get_u16 (put_u16 xs offset value) offset ≡ value
unfolding get_u16 put_u16
get_u16-put_u16 xs offset value fits h =
    rw
      (
        stored_first xs offset (le_bytes16 value) (omega arith) (omega arith),
        get_or-store_at xs offset (le_bytes16 value) 1 0 (omega arith) (omega arith),
        join16 (byte_of value 0) (byte_of value 8) (omega arith),
      )
      (omega arith)

pub get_u32-put_u32 :
    (xs : List ℕ) (offset value : ℕ)
    → offset + 4 ≤ length xs
    → value < 2 ^ 32
    → get_u32 (put_u32 xs offset value) offset ≡ value
unfolding get_u32 put_u32
get_u32-put_u32 xs offset value fits h =
    rw
      (
        stored_first xs offset (le_bytes32 value) (omega arith) (omega arith),
        get_or-store_at xs offset (le_bytes32 value) 1 0 (omega arith) (omega arith),
        get_or-store_at xs offset (le_bytes32 value) 2 0 (omega arith) (omega arith),
        get_or-store_at xs offset (le_bytes32 value) 3 0 (omega arith) (omega arith),
        join32 (byte_of value 0) (byte_of value 8) (byte_of value 16) (byte_of value 24)
            (omega arith) (omega arith) (omega arith),
      )
      (omega arith)

pub get_u64-put_u64 :
    (xs : List ℕ) (offset value : ℕ)
    → offset + 8 ≤ length xs
    → value < 2 ^ 64
    → get_u64 (put_u64 xs offset value) offset ≡ value
unfolding get_u64 put_u64
get_u64-put_u64 xs offset value fits h =
    rw
      (
        stored_first xs offset (le_bytes64 value) (omega arith) (omega arith),
        get_or-store_at xs offset (le_bytes64 value) 1 0 (omega arith) (omega arith),
        get_or-store_at xs offset (le_bytes64 value) 2 0 (omega arith) (omega arith),
        get_or-store_at xs offset (le_bytes64 value) 3 0 (omega arith) (omega arith),
        get_or-store_at xs offset (le_bytes64 value) 4 0 (omega arith) (omega arith),
        get_or-store_at xs offset (le_bytes64 value) 5 0 (omega arith) (omega arith),
        get_or-store_at xs offset (le_bytes64 value) 6 0 (omega arith) (omega arith),
        get_or-store_at xs offset (le_bytes64 value) 7 0 (omega arith) (omega arith),
        join32 (byte_of value 0) (byte_of value 8) (byte_of value 16) (byte_of value 24)
            (omega arith) (omega arith) (omega arith),
        join64
            (byte_of value 0
              + byte_of value 8 * 2 ^ 8
              + byte_of value 16 * 2 ^ 16
              + byte_of value 24 * 2 ^ 24)
            (byte_of value 32) (byte_of value 40) (byte_of value 48) (byte_of value 56)
            (omega arith) (omega arith) (omega arith) (omega arith),
      )
      (omega arith)

-- A field in front of a later write is left alone.
module _ (xs : List ℕ) (i : ℕ) (vs : List ℕ) (offset : ℕ) where
  first_kept : offset < i → byte_at (store xs i vs) offset ≡ byte_at xs offset
  first_kept h = get_or-store_before xs i vs offset 0 h

  kept : (k : ℕ) → offset + k < i → byte_at (store xs i vs) (offset + k) ≡ byte_at xs (offset + k)
  kept k h = get_or-store_before xs i vs (offset + k) 0 h

  pub get_u16-store_before : offset + 2 ≤ i → get_u16 (store xs i vs) offset ≡ get_u16 xs offset
  unfolding get_u16
  get_u16-store_before h = rw (first_kept (omega arith), kept 1 (omega arith))

  pub get_u32-store_before : offset + 4 ≤ i → get_u32 (store xs i vs) offset ≡ get_u32 xs offset
  unfolding get_u32
  get_u32-store_before h =
      rw
        (first_kept (omega arith), kept 1 (omega arith), kept 2 (omega arith), kept 3 (omega arith))

  pub get_u64-store_before : offset + 8 ≤ i → get_u64 (store xs i vs) offset ≡ get_u64 xs offset
  unfolding get_u64
  get_u64-store_before h = rw (
    first_kept (omega arith),
    kept 1 (omega arith),
    kept 2 (omega arith),
    kept 3 (omega arith),
    kept 4 (omega arith),
    kept 5 (omega arith),
    kept 6 (omega arith),
    kept 7 (omega arith),
  )

pub length-put_u32 : (xs : List ℕ) (i value : ℕ) → length (put_u32 xs i value) ≡ length xs
unfolding put_u32
length-put_u32 xs i value = length-store xs i (le_bytes32 value)

pub all_erased-replicate : (n : ℕ) → all_erased (replicate n 0xFF) ≡ true
unfolding all_erased
all_erased-replicate zero = refl
all_erased-replicate (suc n) = all_erased-replicate n

pub all_erased_otherwise : (xs : List ℕ) → get_or xs 0 0 ≡ 0x44 → all_erased xs ≡ false
unfolding all_erased
all_erased_otherwise [] h = absurd (omega (arith, h))
all_erased_otherwise (x ∷ xs) h = rw h refl

-- four erased bytes
pub get_u32-erased : (n : ℕ) → 4 ≤ n → get_u32 (replicate n 0xFF) 0 ≡ 0xFFFF_FFFF
unfolding get_u32
get_u32-erased zero h = absurd (omega arith)
get_u32-erased (suc zero) h = absurd (omega arith)
get_u32-erased (suc (suc zero)) h = absurd (omega arith)
get_u32-erased (suc (suc (suc zero))) h = absurd (omega arith)
get_u32-erased (suc (suc (suc (suc n)))) h = refl
