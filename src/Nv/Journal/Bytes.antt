-- ===== src/Nv/Journal/Bytes.antt =====
-- `hal::nv::detail`: little-endian fields in a byte array. The loops of a fixed four or eight
-- rounds are written out.
pub mod Fields
use ecu_drivers.Prelude.{
  ℕ, ◌+◌, ◌*◌, ◌/◌, ◌%◌, ◌^◌, bit_or, Bool, true, List, [], ◌∷◌, ◌&&◌, ◌==◌, replicate, store,
  get_or,
}

-- `fill_erased` on an array of `size` bytes
abbrev pub fill_erased : ℕ → List ℕ
fill_erased size = replicate size 0xFF

pub all_erased : List ℕ → Bool
all_erased [] = true
all_erased (value ∷ rest) = value == 0xFF && all_erased rest

-- `(value >> (index * 8)) & 0xFF`
abbrev pub byte_of : ℕ → ℕ → ℕ
byte_of value shift = value / 2 ^ shift % 256

abbrev pub le_bytes16 : ℕ → List ℕ
le_bytes16 value = byte_of value 0 ∷ byte_of value 8 ∷ []

abbrev pub le_bytes32 : ℕ → List ℕ
le_bytes32 value = byte_of value 0 ∷ byte_of value 8 ∷ byte_of value 16 ∷ byte_of value 24 ∷ []

abbrev pub le_bytes64 : ℕ → List ℕ
le_bytes64 value =
    byte_of value 0
    ∷ byte_of value 8
    ∷ byte_of value 16
    ∷ byte_of value 24
    ∷ byte_of value 32
    ∷ byte_of value 40
    ∷ byte_of value 48
    ∷ byte_of value 56
    ∷ []

unfoldable pub put_u16 : List ℕ → ℕ → ℕ → List ℕ
put_u16 destination offset value = store destination offset (le_bytes16 value)

unfoldable pub put_u32 : List ℕ → ℕ → ℕ → List ℕ
put_u32 destination offset value = store destination offset (le_bytes32 value)

unfoldable pub put_u64 : List ℕ → ℕ → ℕ → List ℕ
put_u64 destination offset value = store destination offset (le_bytes64 value)

abbrev pub byte_at : List ℕ → ℕ → ℕ
byte_at source i = get_or source i 0

pub get_u16 : List ℕ → ℕ → ℕ
get_u16 source offset = bit_or (byte_at source offset) (byte_at source (offset + 1) * 2 ^ 8)

pub get_u32 : List ℕ → ℕ → ℕ
get_u32 source offset =
    let value = byte_at source offset in
    let value = bit_or value (byte_at source (offset + 1) * 2 ^ 8) in
    let value = bit_or value (byte_at source (offset + 2) * 2 ^ 16) in
    bit_or value (byte_at source (offset + 3) * 2 ^ 24)

pub get_u64 : List ℕ → ℕ → ℕ
get_u64 source offset =
    let value = byte_at source offset in
    let value = bit_or value (byte_at source (offset + 1) * 2 ^ 8) in
    let value = bit_or value (byte_at source (offset + 2) * 2 ^ 16) in
    let value = bit_or value (byte_at source (offset + 3) * 2 ^ 24) in
    let value = bit_or value (byte_at source (offset + 4) * 2 ^ 32) in
    let value = bit_or value (byte_at source (offset + 5) * 2 ^ 40) in
    let value = bit_or value (byte_at source (offset + 6) * 2 ^ 48) in
    bit_or value (byte_at source (offset + 7) * 2 ^ 56)
