-- ===== src/Nv/Journal/Headers.antt =====
-- What `write_region_header`, `write_region_commit` and `write_record` put into their arrays, and
-- the tests by which recovery accepts such an array.
pub mod Body
pub mod Accept
pub mod Record
use ecu_drivers.Prelude.{ℕ, Bool, ◌&&◌, ◌||◌, not, List, ◌==◌, take, if◌then◌else◌}
use ecu_drivers.Foundation.Crc32.{crc32_of}
use ecu_drivers.Nv.Journal.Bytes.{fill_erased, put_u16, put_u32, put_u64, get_u16, get_u32, get_u64}
use ecu_drivers.Nv.Journal.Layout.{Config, region_header_size, record_header_size, commit_size}

abbrev pub region_magic : ℕ
region_magic = 0x4A52_4E4C

abbrev pub region_commit_magic : ℕ
region_commit_magic = 0x5243_4D54

abbrev pub record_magic : ℕ
record_magic = 0x5245_4344

abbrev pub record_commit_magic : ℕ
record_commit_magic = 0x5743_4D54

abbrev pub format_version : ℕ
format_version = 1

-- `hal::crc32(span{array.data(), count})`
abbrev pub crc_of_first : ℕ → List ℕ → ℕ
crc_of_first count array = crc32_of (take count array)

module _ (c : Config) where
  unfoldable pub region_header : ℕ → List ℕ
  region_header generation =
      let header = fill_erased (region_header_size c) in
      let header = put_u32 header 0 region_magic in
      let header = put_u16 header 4 format_version in
      let header = put_u16 header 6 0 in
      let header = put_u64 header 8 generation in
      let header = put_u64 header 16 c.logical_capacity in
      let header = put_u64 header 24 c.max_atomic_write_size in
      put_u32 header 32 (crc_of_first 32 header)

  unfoldable pub region_header_valid : List ℕ → Bool
  region_header_valid header =
      if not (get_u32 header 0 == region_magic)
        || not (get_u16 header 4 == format_version)
        || get_u64 header 8 == 0
        || not (get_u64 header 16 == c.logical_capacity)
        || not (get_u64 header 24 == c.max_atomic_write_size)
      then Bool.false
      else get_u32 header 32 == crc_of_first 32 header

  -- both commit markers: a magic, the number that is committed, and their checksum
  unfoldable pub commit_array : ℕ → ℕ → List ℕ
  commit_array magic number =
      let commit = fill_erased (commit_size c) in
      let commit = put_u32 commit 0 magic in
      let commit = put_u64 commit 4 number in put_u32 commit 12 (crc_of_first 12 commit)

  unfoldable pub record_header : ℕ → ℕ → ℕ → ℕ → List ℕ
  record_header sequence logical_offset payload_size payload_crc =
      let header = fill_erased (record_header_size c) in
      let header = put_u32 header 0 record_magic in
      let header = put_u16 header 4 format_version in
      let header = put_u16 header 6 0 in
      let header = put_u64 header 8 sequence in
      let header = put_u64 header 16 logical_offset in
      let header = put_u64 header 24 payload_size in
      let header = put_u32 header 32 payload_crc in put_u32 header 36 (crc_of_first 36 header)

unfoldable pub commit_valid : ℕ → List ℕ → ℕ → Bool
commit_valid magic commit number =
    get_u32 commit 0 == magic
    && get_u64 commit 4 == number
    && get_u32 commit 12 == crc_of_first 12 commit

abbrev pub region_commit_valid : List ℕ → ℕ → Bool
region_commit_valid = commit_valid region_commit_magic

abbrev pub record_commit_valid : List ℕ → ℕ → Bool
record_commit_valid = commit_valid record_commit_magic

unfoldable pub record_header_valid : List ℕ → Bool
record_header_valid header =
    get_u32 header 0 == record_magic
    && get_u16 header 4 == format_version
    && get_u32 header 36 == crc_of_first 36 header
