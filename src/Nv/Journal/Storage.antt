-- ===== src/Nv/Journal/Storage.antt =====
-- The flash accesses of `JournalMemory`, with the flash's errors mapped, and the three writers.
use ecu_drivers.Prelude.{
  ℕ, zero, suc, ◌+◌, List, ◌==◌, length, take, drop, store, min, if◌then◌else◌,
}
use ecu_drivers.Foundation.Result.{Result, map_error}
use ecu_drivers.Foundation.Crc32.{crc32_of}
use ecu_drivers.Nv.Contract.{NorFlash, FlashErrorKind}
use ecu_drivers.Nv.Journal.Error.{flash_error}
use ecu_drivers.Nv.Journal.Bytes.{fill_erased}
use ecu_drivers.Nv.Journal.Layout.{
  Config, io_unit, region_start, region_header_size, record_header_size,
}
use ecu_drivers.Nv.Journal.Headers.{
  region_header, commit_array, record_header, region_commit_magic, record_commit_magic,
}
use ecu_drivers.Foundation.Action.{pure, ◌>>=◌, ◌>>◌}
use ecu_drivers.Nv.Journal.Monad.{JournalAction}

module _ {S : Type 0} where
  -- a call of the flash: its state moves, and its error is mapped
  abbrev pub on_flash : {A : Type 0} → (S → Result A FlashErrorKind × S) → JournalAction S A
  on_flash call w = let (r, s) = call w.flash in (map_error flash_error r, record w { flash = s })

module _ {S : Type 0} (c : Config) (flash : NorFlash S) where
  unfoldable pub read_array : ℕ → ℕ → JournalAction S (List ℕ)
  read_array offset size = on_flash (flash.read offset size)

  unfoldable pub program_array : ℕ → List ℕ → JournalAction S Unit
  program_array offset input = on_flash (flash.program offset input)

  unfoldable pub erase_region : ℕ → JournalAction S Unit
  erase_region region = on_flash (flash.erase (region_start c region) c.region_size)

  unfoldable pub sync : JournalAction S Unit
  sync = on_flash flash.sync

  unfoldable pub write_region_header : ℕ → ℕ → JournalAction S Unit
  unfolding program_array
  write_region_header region generation =
      program_array (region_start c region) (region_header c generation)

  unfoldable pub write_region_commit : ℕ → ℕ → JournalAction S Unit
  unfolding program_array
  write_region_commit region generation =
      program_array (region_start c region + region_header_size c)
        (commit_array c region_commit_magic generation)

  -- The chunk loop of `write_record`, which ends with the offset behind the payload. A round takes
  -- at least one byte, so as much fuel as there are bytes is enough.
  unfoldable pub write_chunks : ℕ → ℕ → List ℕ → JournalAction S ℕ
  write_chunks zero destination remaining = pure destination
  write_chunks (suc fuel) destination remaining =
      let copied = min (length remaining) (io_unit c) in
      let chunk = store (fill_erased (io_unit c)) 0 (take copied remaining) in
      let rest =
        program_array destination chunk
        >> write_chunks fuel (destination + io_unit c) (drop copied remaining) in
      if length remaining == 0 then pure destination else rest

  unfoldable pub write_record : ℕ → ℕ → ℕ → List ℕ → JournalAction S Unit
  unfolding program_array
  write_record flash_offset sequence logical_offset payload = do
    program_array flash_offset
        (record_header c sequence logical_offset (length payload) (crc32_of payload))
    commit_offset ← write_chunks (length payload) (flash_offset + record_header_size c) payload
    program_array commit_offset (commit_array c record_commit_magic sequence)
