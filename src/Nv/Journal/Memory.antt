-- ===== src/Nv/Journal/Memory.antt =====
-- The operations of a mounted `JournalMemory`, formatting, mounting and compaction.
pub mod Blame
pub mod Load
pub mod Mount
pub mod Mounted
pub mod Format
mod Tests
pub mod Compact
pub mod Write
use ecu_drivers.Prelude.{
  ℕ, ◌+◌, Bool, true, false, ◌&&◌, ◌||◌, not, List, ◌==◌, ltb, length, store, slice, if◌then◌else◌,
}
use ecu_drivers.Foundation.Word.{u64_max, sub_size}
use ecu_drivers.Foundation.Result.{Result, success, failure}
use ecu_drivers.Foundation.Span
use ecu_drivers.Foundation.Span.{Span}
use ecu_drivers.Nv.Contract.{NorFlash, MemoryErrorKind, MemoryProperties}
use ecu_drivers.Nv.Journal.Error.{
  JournalErrorSource, JournalError, argument_error, layout_error, recovery_error,
}
use ecu_drivers.Nv.Journal.Bytes.{fill_erased}
use ecu_drivers.Nv.Journal.Layout.{
  Config, region_start, region_end, record_area_offset, record_size, range_valid,
}
use ecu_drivers.Foundation.Action.{pure, fail, on_error, when, ◌>>=◌, ◌>>◌}
use ecu_drivers.Nv.Journal.Monad.{JournalMemory, World, JournalAction, get_memory, update, assign}
use ecu_drivers.Nv.Journal.Storage.{
  erase_region, sync, write_region_header, write_region_commit, write_record,
}
use ecu_drivers.Nv.Journal.Recover.{RegionInfo, inspect_region, load_active_region}

abbrev pub is_recovery : JournalError → Bool
is_recovery e = elim e.source [ JournalErrorSource.recovery ↦ true | _ ↦ false ]

module _ {S : Type 0} (c : Config) (flash : NorFlash S) where
  unfoldable pub format_storage : JournalAction S Unit
  format_storage = do
    erase_region c flash 0
    erase_region c flash 1
    assign (λ m. record {
      mirror = fill_erased (length m.mirror);
      generation = 1;
      last_sequence = 0;
      append_offset = region_start c 0 + record_area_offset c;
      active_region = 0;
      tail_unusable = false;
    })
    write_region_header c flash 0 1
    write_region_commit c flash 0 1
    sync c flash

  -- the region that `mount_existing` tries first, and what it knows of the other
  unfoldable pub second_is_newer : RegionInfo → RegionInfo → Bool
  second_is_newer first second =
      second.is_valid && (not first.is_valid || ltb first.generation second.generation)

  unfoldable pub select_region : ℕ → ℕ → JournalAction S Unit
  select_region region generation =
      assign (λ m. record m { active_region = region; generation = generation })

  -- `loaded || loaded.error().source() != recovery` returns; else the other region is tried
  unfoldable pub load_or_fall_back : Bool → ℕ → ℕ → JournalAction S Unit
  unfolding select_region load_active_region
  load_or_fall_back alternate_valid region generation w =
      let (r, w') = load_active_region c flash w in
      let retry = (select_region region generation >> load_active_region c flash) w' in
      elim r [
        | success u ↦ (success u, w')
        | failure e ↦ if is_recovery e && alternate_valid then retry else (failure e, w')
      ]

  unfoldable pub choose_region : RegionInfo → RegionInfo → JournalAction S Unit
  unfolding format_storage second_is_newer select_region load_or_fall_back
  choose_region first second =
      if not first.is_valid && not second.is_valid
      then (if first.is_erased && second.is_erased then format_storage else fail recovery_error)
      else if first.is_valid && second.is_valid && first.generation == second.generation
      then fail recovery_error
      else if second_is_newer first second
      then (select_region 1 second.generation
          >> load_or_fall_back first.is_valid 0 first.generation)
      else (select_region 0 first.generation
          >> load_or_fall_back second.is_valid 1 second.generation)

  unfoldable pub mount_existing : JournalAction S Unit
  unfolding inspect_region choose_region
  mount_existing = do
    first ← inspect_region c flash 0
    second ← inspect_region c flash 1
    choose_region first second

  -- `JournalMemory memory{flash, mirror};` with every other field zero
  abbrev pub fresh : List ℕ → S → World S
  fresh mirror s = record {
    memory = record {
      mirror = mirror;
      generation = 0;
      last_sequence = 0;
      append_offset = 0;
      active_region = 0;
      tail_unusable = false;
    };
    flash = s;
  }

  -- a constructed object is handed out if its set-up succeeds
  abbrev pub set_up : JournalAction S Unit → Span ℕ → S → Result JournalMemory JournalError × S
  set_up action mirror s =
      if not (Span.valid mirror) || not (Span.size mirror == c.logical_capacity)
      then (failure (argument_error MemoryErrorKind.other), s)
      else (let (r, w) = action (fresh (Span.elements mirror) s) in
          (elim r [ success _ ↦ success w.memory | failure e ↦ failure e ], w.flash))

  unfoldable pub mount : Span ℕ → S → Result JournalMemory JournalError × S
  unfolding mount_existing
  mount = set_up mount_existing

  unfoldable pub format : Span ℕ → S → Result JournalMemory JournalError × S
  unfolding format_storage
  format = set_up format_storage

  unfoldable pub properties : MemoryProperties
  properties = record {
    capacity = c.logical_capacity;
    max_atomic_write_size = c.max_atomic_write_size;
  }

  -- On success the bytes that the call leaves in `output`.
  unfoldable pub read : ℕ → Span ℕ → JournalAction S (List ℕ)
  read offset output =
      if not (Span.valid output)
      then fail (argument_error MemoryErrorKind.other)
      else if not (range_valid c offset (Span.size output))
      then fail (argument_error MemoryErrorKind.out_of_range)
      else (do m ← get_memory; pure (slice m.mirror offset (Span.size output)))

  unfoldable pub compact : JournalAction S Unit
  compact = do
    m ← get_memory
    if m.generation == u64_max || m.last_sequence == u64_max
        then fail (layout_error MemoryErrorKind.no_space)
        else (let destination : ℕ = if m.active_region == 0 then 1 else 0 in
            let snapshot_offset = region_start c destination + record_area_offset c in
            do
              erase_region c flash destination
              write_region_header c flash destination (m.generation + 1)
              write_record c flash snapshot_offset (m.last_sequence + 1) 0 m.mirror
              sync c flash
              write_region_commit c flash destination (m.generation + 1)
              sync c flash
              assign (λ now. record now {
                active_region = destination;
                generation = m.generation + 1;
                last_sequence = m.last_sequence + 1;
                append_offset = snapshot_offset + record_size c c.logical_capacity;
                tail_unusable = false;
              })
              erase_region c flash m.active_region)

  -- the end of `write`, behind the compaction
  unfoldable pub append : ℕ → List ℕ → JournalAction S Unit
  append offset input = do
    m ← get_memory
    if m.last_sequence == u64_max then fail (layout_error MemoryErrorKind.no_space) else (do
      on_error (write_record c flash m.append_offset (m.last_sequence + 1) offset input)
          (update (λ now. record now { tail_unusable = true }))
      assign (λ now. record now {
        mirror = store now.mirror offset input;
        append_offset = now.append_offset + record_size c (length input);
        last_sequence = m.last_sequence + 1;
      }))

  -- `required > region_end(active_region_) - append_offset_` is on `std::size_t`
  unfoldable pub write : ℕ → Span ℕ → JournalAction S Unit
  unfolding compact append
  write offset input =
      if not (Span.valid input)
      then fail (argument_error MemoryErrorKind.other)
      else if not (range_valid c offset (Span.size input))
      then fail (argument_error MemoryErrorKind.out_of_range)
      else if ltb c.max_atomic_write_size (Span.size input)
      then fail (argument_error MemoryErrorKind.too_large)
      else if Span.empty input
      then pure tt
      else (do
        m ← get_memory
        let space = sub_size (region_end c m.active_region) m.append_offset
        when (m.tail_unusable || ltb space (record_size c (Span.size input))) compact
        append offset (Span.elements input))
