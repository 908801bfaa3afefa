-- ===== src/Nv/Journal/Headers/Body.antt =====
-- The six fields that a region header and a record header start with, read back from the array.
use ecu_drivers.Prelude.{ℕ, ◌^◌, ◌≤◌, ◌<◌, ◌≡◌, ◌∙◌, List, arith, length, length-store}
use ecu_drivers.Nv.Journal.Bytes.{
  put_u16, put_u32, put_u64, get_u16, get_u32, get_u64, le_bytes16, le_bytes32, le_bytes64,
}
use ecu_drivers.Nv.Journal.Bytes.Fields.{
  get_u16-put_u16, get_u32-put_u32, get_u64-put_u64, get_u16-store_before, get_u32-store_before,
  get_u64-store_before,
}
use ecu_drivers.Nv.Journal.Headers.{format_version}

-- The six fields that a region header and a record header start with.
module _ (h : List ℕ) (magic a b d : ℕ) where
  abbrev pub h0 : List ℕ
  h0 = put_u32 h 0 magic

  abbrev pub h4 : List ℕ
  h4 = put_u16 h0 4 format_version

  abbrev pub h6 : List ℕ
  h6 = put_u16 h4 6 0

  abbrev pub h8 : List ℕ
  h8 = put_u64 h6 8 a

  abbrev pub h16 : List ℕ
  h16 = put_u64 h8 16 b

  abbrev pub body : List ℕ
  body = put_u64 h16 24 d

  length-h8 : length h8 ≡ length h
  unfolding put_u16 put_u32 put_u64
  length-h8 =
      length-store h6 8 (le_bytes64 a)
      ∙ length-store h4 6 (le_bytes16 0)
      ∙ length-store h0 4 (le_bytes16 format_version)
      ∙ length-store h 0 (le_bytes32 magic)

  pub length-body : length body ≡ length h
  unfolding put_u64
  length-body = length-store h16 24 (le_bytes64 d) ∙ length-store h8 16 (le_bytes64 b) ∙ length-h8

  module _ (long : 36 ≤ length h) where
    pub body_magic : magic < 2 ^ 32 → get_u32 body 0 ≡ magic
    unfolding put_u16 put_u32 put_u64
    body_magic hm =
        get_u32-store_before h16 24 (le_bytes64 d) 0 (omega arith)
        ∙ get_u32-store_before h8 16 (le_bytes64 b) 0 (omega arith)
        ∙ get_u32-store_before h6 8 (le_bytes64 a) 0 (omega arith)
        ∙ get_u32-store_before h4 6 (le_bytes16 0) 0 (omega arith)
        ∙ get_u32-store_before h0 4 (le_bytes16 format_version) 0 (omega arith)
        ∙ get_u32-put_u32 h 0 magic (omega arith) hm

    pub body_version : get_u16 body 4 ≡ format_version
    unfolding put_u16 put_u32 put_u64
    body_version =
        get_u16-store_before h16 24 (le_bytes64 d) 4 (omega arith)
        ∙ get_u16-store_before h8 16 (le_bytes64 b) 4 (omega arith)
        ∙ get_u16-store_before h6 8 (le_bytes64 a) 4 (omega arith)
        ∙ get_u16-store_before h4 6 (le_bytes16 0) 4 (omega arith)
        ∙ get_u16-put_u16 h0 4 format_version (omega (arith, length-store h 0 (le_bytes32 magic)))
            (omega arith)

    pub body_first : a < 2 ^ 64 → get_u64 body 8 ≡ a
    unfolding put_u64
    body_first ha =
        get_u64-store_before h16 24 (le_bytes64 d) 8 (omega arith)
        ∙ get_u64-store_before h8 16 (le_bytes64 b) 8 (omega arith)
        ∙ get_u64-put_u64 h6 8 a (omega (arith, length-h8, length-store h6 8 (le_bytes64 a))) ha

    pub body_second : b < 2 ^ 64 → get_u64 body 16 ≡ b
    unfolding put_u64
    body_second hb =
        get_u64-store_before h16 24 (le_bytes64 d) 16 (omega arith)
        ∙ get_u64-put_u64 h8 16 b (omega (arith, length-h8)) hb

    pub body_third : d < 2 ^ 64 → get_u64 body 24 ≡ d
    unfolding put_u64
    body_third hd =
        get_u64-put_u64 h16 24 d (omega (arith, length-h8, length-store h8 16 (le_bytes64 b))) hd
