-- ===== src/Nv/Journal/Tests.antt =====
-- Headers and sizes of a concrete layout.
use ecu_drivers.Prelude.{◌+◌, ◌%◌, ◌≤◌, ◌<◌, ◌≡◌, true, ◌==◌, arith}
use ecu_drivers.Nv.Journal.Example.{small, small-IsConfig}
use ecu_drivers.Nv.Journal.Bytes.{get_u32, get_u64}
use ecu_drivers.Nv.Journal.Layout.{io_unit, align_up_word, journal_align_up}
use ecu_drivers.Nv.Journal.Layout.Sizes.{align_up_word_lem, io_unit_lem}
use ecu_drivers.Nv.Journal.Headers.{
  region_header, region_header_valid, commit_array, commit_valid, record_header,
  record_header_valid, region_commit_magic,
}
use ecu_drivers.Nv.Journal.Headers.Accept.{commit_array_accepted, region_header_accepted}
use ecu_drivers.Nv.Journal.Headers.Record.{record_header_accepted}

align_up_word_lem_example :
    (36 ≤ align_up_word 36 8)
    × (align_up_word 36 8 < 36 + 8)
    × (align_up_word 36 8 % 8 ≡ 0)
    × (align_up_word 36 8 ≡ journal_align_up 36 8)
align_up_word_lem_example = align_up_word_lem 36 8 (omega arith) (omega arith)

io_unit_lem_example : (0 < io_unit small) × (io_unit small % 1 ≡ 0) × (io_unit small % 8 ≡ 0)
io_unit_lem_example = io_unit_lem small-IsConfig

commit_array_accepted_example :
    commit_valid region_commit_magic (commit_array small region_commit_magic 3) 4 ≡ (3 == 4)
commit_array_accepted_example =
    commit_array_accepted small-IsConfig region_commit_magic 3 4 (omega arith) (omega arith)

region_header_accepted_example :
    (region_header_valid small (region_header small 3) ≡ true)
    × (get_u64 (region_header small 3) 8 ≡ 3)
region_header_accepted_example = region_header_accepted small-IsConfig 3 (omega arith) (omega arith)

record_header_accepted_example :
    let header = record_header small 5 4 8 77 in
    (record_header_valid header ≡ true)
    × (get_u64 header 8 ≡ 5)
    × (get_u64 header 16 ≡ 4)
    × (get_u64 header 24 ≡ 8)
    × (get_u32 header 32 ≡ 77)
record_header_accepted_example =
    record_header_accepted small-IsConfig 5 4 8 77 (omega arith) (omega arith) (omega arith)
      (omega arith)
