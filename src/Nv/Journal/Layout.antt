-- ===== src/Nv/Journal/Layout.antt =====
-- The compile-time layout of `JournalMemory`: the I/O unit, the sizes of headers, commits and
-- records, the two regions, and the static assertions. Sizes are plain numbers: the assertions keep
-- every offset inside the flash, whose capacity fits `std::size_t`.
pub mod Sizes
use ecu_drivers.Prelude.{
  ℕ, zero, suc, ◌+◌, ◌-◌, ◌*◌, ◌/◌, ◌%◌, ◌^◌, ◌≤◌, ◌<◌, ◌≡◌, Bool, ◌&&◌, leb, ◌==◌, if◌then◌else◌,
}
use ecu_drivers.Foundation.Word.{u64, sub_size}
use ecu_drivers.Nv.Contract.{FlashGeometry}

-- The template parameters `Flash::geometry()`, `LogicalCapacity`, `MaxAtomicWriteSize`,
-- `BaseOffset` and `RegionSize`.
pub record Config : Type 0 where
  pub geometry : FlashGeometry
  pub logical_capacity : ℕ
  pub max_atomic_write_size : ℕ
  pub base_offset : ℕ
  pub region_size : ℕ

-- `while (right != 0)`: the second number falls, so one round more than it is fuel enough.
unfoldable pub gcd_loop : ℕ → ℕ → ℕ → ℕ
gcd_loop zero left right = left
gcd_loop (suc fuel) left right =
    let rest = gcd_loop fuel right (left % right) in if right == 0 then left else rest

unfoldable pub journal_gcd : ℕ → ℕ → ℕ
journal_gcd left right = gcd_loop (suc right) left right

unfoldable pub journal_lcm : ℕ → ℕ → ℕ
journal_lcm left right = left / journal_gcd left right * right

-- `journal_align_up` as `std::size_t` computes it, each sum, difference and product wrapped
unfoldable pub align_up_word : ℕ → ℕ → ℕ
align_up_word value alignment = u64 (sub_size (u64 (value + alignment)) 1 / alignment * alignment)

-- The same on plain numbers, for the sizes of a configuration: each has a sum with the
-- I/O unit that is at most the flash's capacity, so it does not wrap.
unfoldable pub journal_align_up : ℕ → ℕ → ℕ
journal_align_up value alignment = (value + alignment - 1) / alignment * alignment

module _ (c : Config) where
  unfoldable pub safe_read_size : ℕ
  safe_read_size = if c.geometry.read_size == 0 then 1 else c.geometry.read_size

  unfoldable pub safe_program_size : ℕ
  safe_program_size = if c.geometry.program_size == 0 then 1 else c.geometry.program_size

  unfoldable pub io_unit : ℕ
  io_unit = journal_lcm safe_read_size safe_program_size

  unfoldable pub region_header_size : ℕ
  region_header_size = journal_align_up 36 io_unit

  unfoldable pub record_header_size : ℕ
  record_header_size = journal_align_up 40 io_unit

  unfoldable pub commit_size : ℕ
  commit_size = journal_align_up 16 io_unit

  unfoldable pub record_area_offset : ℕ
  record_area_offset = region_header_size + commit_size

  unfoldable pub record_size : ℕ → ℕ
  record_size payload_size =
      record_header_size + journal_align_up payload_size io_unit + commit_size

  unfoldable pub range_valid : ℕ → ℕ → Bool
  range_valid offset size = leb offset c.logical_capacity && leb size (c.logical_capacity - offset)

  unfoldable pub region_start : ℕ → ℕ
  region_start region = c.base_offset + region * c.region_size

  unfoldable pub region_end : ℕ → ℕ
  region_end region = region_start region + c.region_size

  -- the static assertions of the class; sizes are values of a 64-bit type
  pub record IsConfig : Type 0 where
    pub capacity_word : c.geometry.capacity < 2 ^ 64
    pub capacity_pos : 0 < c.geometry.capacity
    pub read_pos : 0 < c.geometry.read_size
    pub program_pos : 0 < c.geometry.program_size
    pub erase_pos : 0 < c.geometry.erase_size
    pub logical_pos : 0 < c.logical_capacity
    pub atomic_pos : 0 < c.max_atomic_write_size
    pub atomic_le_logical : c.max_atomic_write_size ≤ c.logical_capacity
    pub base_erase_aligned : c.base_offset % c.geometry.erase_size ≡ 0
    pub base_io_aligned : c.base_offset % io_unit ≡ 0
    pub region_erase_aligned : c.region_size % c.geometry.erase_size ≡ 0
    pub region_io_aligned : c.region_size % io_unit ≡ 0
    pub base_inside : c.base_offset ≤ c.geometry.capacity
    pub regions_inside : c.region_size ≤ (c.geometry.capacity - c.base_offset) / 2
    pub room :
        record_area_offset + record_size c.logical_capacity + record_size c.max_atomic_write_size
        ≤ c.region_size
