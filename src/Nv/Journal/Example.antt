-- ===== src/Nv/Journal/Example.antt =====
-- A concrete layout for the tests: 16 bytes kept in two regions of 4096.
use ecu_drivers.Prelude.{refl, arith}
use ecu_drivers.Nv.Journal.Layout.{
  Config, IsConfig, io_unit, region_header_size, record_header_size, commit_size, record_size,
  record_area_offset, journal_align_up, journal_lcm, journal_gcd, gcd_loop, safe_read_size,
  safe_program_size,
}

abbrev pub small : Config
small = record {
  geometry = record { capacity = 8192; read_size = 1; program_size = 8; erase_size = 4096 };
  logical_capacity = 16;
  max_atomic_write_size = 8;
  base_offset = 0;
  region_size = 4096;
}

pub small-IsConfig : IsConfig small
unfolding io_unit record_area_offset record_size journal_lcm safe_read_size journal_gcd gcd_loop
    safe_program_size region_header_size journal_align_up commit_size record_header_size
small-IsConfig = record {
  capacity_word = omega arith;
  capacity_pos = omega arith;
  read_pos = omega arith;
  program_pos = omega arith;
  erase_pos = omega arith;
  logical_pos = omega arith;
  atomic_pos = omega arith;
  atomic_le_logical = omega arith;
  base_erase_aligned = refl;
  base_io_aligned = refl;
  region_erase_aligned = refl;
  region_io_aligned = refl;
  base_inside = omega arith;
  regions_inside = omega arith;
  room = omega arith;
}
