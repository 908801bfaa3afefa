-- ===== src/Nv/Journal/Recover.antt =====
-- Recovery: what a mounting `JournalMemory` reads from the flash, and which region it believes.
use ecu_drivers.Prelude.{
  ℕ, zero, suc, ◌+◌, ◌-◌, Bool, true, false, ◌&&◌, ◌||◌, not, List, ◌==◌, ltb, leb, length, take,
  store, min, if◌then◌else◌,
}
use ecu_drivers.Foundation.Crc32.{crc_bytes, complement32}
use ecu_drivers.Nv.Contract.{NorFlash}
use ecu_drivers.Nv.Journal.Error.{recovery_error}
use ecu_drivers.Nv.Journal.Bytes.{fill_erased, all_erased, get_u32, get_u64}
use ecu_drivers.Nv.Journal.Layout.{
  Config, io_unit, journal_align_up, region_start, region_end, region_header_size,
  record_header_size, commit_size, record_area_offset, record_size,
}
use ecu_drivers.Nv.Journal.Headers.{
  region_header_valid, region_commit_valid, record_header_valid, record_commit_valid,
}
use ecu_drivers.Foundation.Action.{pure, fail, ◌>>=◌, ◌>>◌}
use ecu_drivers.Nv.Journal.Monad.{JournalAction, get_memory, assign}
use ecu_drivers.Nv.Journal.Storage.{read_array}

pub record RegionInfo : Type 0 where
  pub is_valid : Bool
  pub is_erased : Bool
  pub generation : ℕ

module _ {S : Type 0} (c : Config) (flash : NorFlash S) where
  -- `for (offset = start; offset < end; offset += io_unit)`; the unit is at least one byte
  unfoldable pub erased_loop : ℕ → ℕ → ℕ → JournalAction S Bool
  erased_loop zero offset stop = pure true
  erased_loop (suc fuel) offset stop =
      let rest = erased_loop fuel (offset + io_unit c) stop in
      if ltb offset stop
      then (read_array c flash offset (io_unit c) >>= λ chunk.
          if all_erased chunk then rest else pure false)
      else pure true

  unfoldable pub region_is_erased : ℕ → JournalAction S Bool
  unfolding erased_loop
  region_is_erased region = erased_loop c.region_size (region_start c region) (region_end c region)

  unfoldable pub inspect_region : ℕ → JournalAction S RegionInfo
  unfolding region_is_erased read_array
  inspect_region region = do
    header ← read_array c flash (region_start c region) (region_header_size c)
    commit ← read_array c flash (region_start c region + region_header_size c) (commit_size c)
    if region_header_valid c header && region_commit_valid commit (get_u64 header 8)
        then pure (record { is_valid = true; is_erased = false; generation = get_u64 header 8 })
        else (region_is_erased region >>= λ erased.
            pure (record { is_valid = false; is_erased = erased; generation = 0 }))

  -- The chunk loops over a payload on flash: a round takes at least one byte of `remaining`.
  unfoldable pub crc_chunks : ℕ → ℕ → ℕ → ℕ → JournalAction S ℕ
  crc_chunks zero state offset remaining = pure state
  crc_chunks (suc fuel) state offset remaining =
      let consumed = min remaining (io_unit c) in
      let rest = read_array c flash offset (io_unit c) >>= λ chunk.
      crc_chunks fuel (crc_bytes state (take consumed chunk)) (offset + io_unit c)
        (remaining - consumed) in
      if remaining == 0 then pure state else rest

  unfoldable pub crc_payload : ℕ → ℕ → JournalAction S ℕ
  unfolding crc_chunks
  crc_payload flash_offset size = do
    state ← crc_chunks size 0xFFFF_FFFF flash_offset size
    pure (complement32 state)

  unfoldable pub apply_chunks : ℕ → ℕ → ℕ → ℕ → JournalAction S Unit
  apply_chunks zero source destination remaining = pure tt
  apply_chunks (suc fuel) source destination remaining =
      let copied = min remaining (io_unit c) in
      let rest = read_array c flash source (io_unit c) >>= λ chunk.
      assign (λ m. record m { mirror = store m.mirror destination (take copied chunk) })
      >> apply_chunks fuel (source + io_unit c) (destination + copied) (remaining - copied) in
      if remaining == 0 then pure tt else rest

  unfoldable pub apply_payload : ℕ → ℕ → ℕ → JournalAction S Unit
  unfolding apply_chunks
  apply_payload flash_offset logical_offset size =
      apply_chunks size flash_offset logical_offset size

  unfoldable pub finish_recovered_tail : Bool → Bool → JournalAction S Unit
  finish_recovered_tail prefix_valid unusable = do
    assign (λ m. record m { tail_unusable = unusable })
    if prefix_valid then pure tt else fail recovery_error

  -- What a round of the loop of `load_active_region` does behind an accepted record header: the
  -- record's commit and payload are checked, and it is applied. The result says whether it was.
  unfoldable pub load_record : ℕ → List ℕ → JournalAction S Bool
  unfolding crc_payload apply_payload read_array
  load_record append_offset header =
      let sequence = get_u64 header 8 in
      let logical_offset = get_u64 header 16 in
      let size = get_u64 header 24 in
      let payload_offset = append_offset + record_header_size c in
      let commit_offset = payload_offset + journal_align_up size (io_unit c) in
      do
        commit ← read_array c flash commit_offset (commit_size c)
        if not (record_commit_valid commit sequence)
            then pure false
            else (crc_payload payload_offset size >>= λ crc.
                if not (crc == get_u32 header 32) then pure false else (do
                  apply_payload payload_offset logical_offset size
                  assign (λ m. record m {
                    last_sequence = sequence;
                    append_offset = append_offset + record_size c size;
                  })
                  pure true))

  -- `while (append_offset_ + record_header_size + commit_size <= end)`; a record is not empty
  unfoldable pub load_loop : ℕ → Bool → JournalAction S Unit
  load_loop zero snapshot_loaded = finish_recovered_tail snapshot_loaded true
  load_loop (suc fuel) snapshot_loaded =
      let rest = load_loop fuel true in
      do
        m ← get_memory
        let stop = region_end c m.active_region
        if not (leb (m.append_offset + record_header_size c + commit_size c) stop)
            then finish_recovered_tail snapshot_loaded true
            else (do
              header ← read_array c flash m.append_offset (record_header_size c)
              let sequence = get_u64 header 8
              let logical_offset = get_u64 header 16
              let size = get_u64 header 24
              if all_erased header
                  then finish_recovered_tail snapshot_loaded false
                  else if not (record_header_valid header)
                  then finish_recovered_tail snapshot_loaded true
                  else if ltb c.logical_capacity logical_offset
                      || size == 0
                      || ltb (c.logical_capacity - logical_offset) size
                      || leb sequence m.last_sequence
                  then finish_recovered_tail snapshot_loaded true
                  else if not snapshot_loaded
                      && (not (logical_offset == 0) || not (size == c.logical_capacity))
                  then fail recovery_error
                  else if ltb (stop - m.append_offset) (record_size c size)
                  then finish_recovered_tail snapshot_loaded true
                  else (load_record m.append_offset header >>= λ loaded.
                      if loaded then rest else finish_recovered_tail snapshot_loaded true))

  unfoldable pub load_active_region : JournalAction S Unit
  unfolding load_loop
  load_active_region = do
    assign (λ m. record m {
      mirror = fill_erased (length m.mirror);
      last_sequence = 0;
      append_offset = region_start c m.active_region + record_area_offset c;
      tail_unusable = false;
    })
    m ← get_memory
    load_loop c.region_size (m.generation == 1)
