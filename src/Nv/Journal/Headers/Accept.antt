-- ===== src/Nv/Journal/Headers/Accept.antt =====
-- Recovery accepts what the writers wrote, and reads the fields that they stored.
use ecu_drivers.Prelude.{
  ℕ, ◌+◌, ◌^◌, ◌≤◌, ◌<◌, ◌≡◌, ◌∙◌, ap, sym, true, List, arith, ◌==◌, length, take, length-store,
  length-replicate, take-store_beyond,
}
use ecu_drivers.Foundation.Crc32.{crc32_of, crc32_of-lt}
use ecu_drivers.Nv.Journal.Bytes.{
  fill_erased, put_u32, put_u64, get_u16, get_u32, get_u64, le_bytes32, le_bytes64,
}
use ecu_drivers.Nv.Journal.Bytes.Fields.{
  get_u32-put_u32, get_u64-put_u64, get_u16-store_before, get_u32-store_before,
  get_u64-store_before,
}
use ecu_drivers.Nv.Journal.Layout.{Config, IsConfig, commit_size, region_header_size}
use ecu_drivers.Nv.Journal.Layout.Sizes.{headers_fit, logical-le-capacity}
use ecu_drivers.Nv.Journal.Headers.Body.{
  body, length-body, body_magic, body_version, body_first, body_second, body_third,
}
use ecu_drivers.Nv.Journal.Headers.{
  commit_array, commit_valid, crc_of_first, region_header, region_header_valid, region_magic,
}

commit_fields :
    {c : Config}
    → IsConfig c
    → (magic number : ℕ) → magic < 2 ^ 32
    → number < 2 ^ 64
    → let commit = commit_array c magic number in
      (get_u32 commit 0 ≡ magic)
      × (get_u64 commit 4 ≡ number)
      × (get_u32 commit 12 ≡ crc_of_first 12 commit)
unfolding commit_array put_u32 put_u64
commit_fields {c} ok magic number hm hn = (
  get_u32-store_before b2 12 (le_bytes32 (crc_of_first 12 b2)) 0 (omega arith)
      ∙ get_u32-store_before b1 4 (le_bytes64 number) 0 (omega arith)
      ∙ get_u32-put_u32 b0 0 magic (omega (arith, long)) hm,
  get_u64-store_before b2 12 (le_bytes32 (crc_of_first 12 b2)) 4 (omega arith)
      ∙ get_u64-put_u64 b1 4 number (omega (arith, long, long1)) hn,
  get_u32-put_u32 b2 12 (crc_of_first 12 b2) (omega (arith, long, long1, long2))
        (crc32_of-lt (take 12 b2))
      ∙ ap crc32_of
          (sym (take-store_beyond 12 b2 12 (le_bytes32 (crc_of_first 12 b2)) (omega arith))),
)
  where
    b0 : List ℕ
    b0 = fill_erased (commit_size c)

    b1 : List ℕ
    b1 = put_u32 b0 0 magic

    b2 : List ℕ
    b2 = put_u64 b1 4 number

    long : 16 ≤ length b0
    long = omega (arith, length-replicate {A = ℕ} (commit_size c) 0xFF, headers_fit ok)

    long1 : length b1 ≡ length b0
    long1 = length-store b0 0 (le_bytes32 magic)

    long2 : length b2 ≡ length b1
    long2 = length-store b1 4 (le_bytes64 number)

-- A commit marker is accepted under its own magic, and for its own number alone.
pub commit_array_accepted :
    {c : Config}
    → IsConfig c
    → (magic number other : ℕ) → magic < 2 ^ 32
    → number < 2 ^ 64
    → commit_valid magic (commit_array c magic number) other ≡ (number == other)
unfolding commit_valid
commit_array_accepted {c} ok magic number other hm hn =
    let (f0, f4, f12) = commit_fields ok magic number hm hn in ground (arith, f0, f4, f12)

-- Nothing of an array in front of a later field changes.
module _ (xs : List ℕ) (i value : ℕ) where
  pub first_kept : (n : ℕ) → n ≤ i → crc_of_first n (put_u32 xs i value) ≡ crc_of_first n xs
  unfolding put_u32
  first_kept n h = ap crc32_of (take-store_beyond n xs i (le_bytes32 value) h)

  pub u16_kept :
      (offset : ℕ) → offset + 2 ≤ i → get_u16 (put_u32 xs i value) offset ≡ get_u16 xs offset
  unfolding put_u32
  u16_kept offset h = get_u16-store_before xs i (le_bytes32 value) offset h

  pub u32_kept :
      (offset : ℕ) → offset + 4 ≤ i → get_u32 (put_u32 xs i value) offset ≡ get_u32 xs offset
  unfolding put_u32
  u32_kept offset h = get_u32-store_before xs i (le_bytes32 value) offset h

  pub u64_kept :
      (offset : ℕ) → offset + 8 ≤ i → get_u64 (put_u32 xs i value) offset ≡ get_u64 xs offset
  unfolding put_u32
  u64_kept offset h = get_u64-store_before xs i (le_bytes32 value) offset h

module _ {c : Config} (ok : IsConfig c) where
  -- A written region header is accepted, and recovery reads its generation from it.
  pub region_header_accepted :
      (generation : ℕ)
      → 0 < generation
      → generation < 2 ^ 64
      → (region_header_valid c (region_header c generation) ≡ true)
        × (get_u64 (region_header c generation) 8 ≡ generation)
  unfolding region_header region_header_valid
  region_header_accepted generation pos hg = (ground (arith, f0, f4, f8, f16, f24, f32), f8)
    where
      start : List ℕ
      start = fill_erased (region_header_size c)

      long : 36 ≤ length start
      long = omega (arith, length-replicate {A = ℕ} (region_header_size c) 0xFF, headers_fit ok)

      front : List ℕ
      front = body start region_magic generation c.logical_capacity c.max_atomic_write_size

      crc : ℕ
      crc = crc_of_first 32 front

      f0 : get_u32 (put_u32 front 32 crc) 0 ≡ region_magic
      f0 =
          u32_kept front 32 crc 0 (omega arith)
          ∙ body_magic start region_magic generation c.logical_capacity c.max_atomic_write_size long
              (omega arith)

      f4 : get_u16 (put_u32 front 32 crc) 4 ≡ 1
      f4 =
          u16_kept front 32 crc 4 (omega arith)
          ∙ body_version start region_magic generation c.logical_capacity c.max_atomic_write_size
              long

      f8 : get_u64 (put_u32 front 32 crc) 8 ≡ generation
      f8 =
          u64_kept front 32 crc 8 (omega arith)
          ∙ body_first start region_magic generation c.logical_capacity c.max_atomic_write_size long
              hg

      f16 : get_u64 (put_u32 front 32 crc) 16 ≡ c.logical_capacity
      f16 =
          u64_kept front 32 crc 16 (omega arith)
          ∙ body_second start region_magic generation c.logical_capacity c.max_atomic_write_size
              long (omega (arith, ok.capacity_word, logical-le-capacity ok))

      f24 : get_u64 (put_u32 front 32 crc) 24 ≡ c.max_atomic_write_size
      f24 =
          u64_kept front 32 crc 24 (omega arith)
          ∙ body_third start region_magic generation c.logical_capacity c.max_atomic_write_size long
              (omega (arith, ok.capacity_word, ok.atomic_le_logical, logical-le-capacity ok))

      f32 : get_u32 (put_u32 front 32 crc) 32 ≡ crc_of_first 32 (put_u32 front 32 crc)
      f32 =
          get_u32-put_u32 front 32 crc
            (omega (
              arith,
              long,
              length-body start region_magic generation c.logical_capacity c.max_atomic_write_size,
            ))
            (crc32_of-lt (take 32 front))
          ∙ sym (first_kept front 32 crc 32 (omega arith))
