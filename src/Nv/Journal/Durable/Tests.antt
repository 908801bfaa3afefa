-- ===== src/Nv/Journal/Durable/Tests.antt =====
-- A small journal on a flash that is a list of bytes: formatted, written and mounted anew.
use ecu_drivers.Prelude.{
  ℕ, ◌≤◌, ◌≡◌, refl, ap, false, List, [], ◌∷◌, arith, length, length-replicate, replicate, slice,
  store,
}
use ecu_drivers.Foundation.Result.{success}
use ecu_drivers.Foundation.Action.{on_error, modify, ◌>>=◌, get_state, pure}
use ecu_drivers.Foundation.Action.Rules.{Ensures}
use ecu_drivers.Foundation.Span.{Span}
use ecu_drivers.Nv.Contract.{NorFlash}
use ecu_drivers.Nv.Lawful.{IsLawful}
use ecu_drivers.Nv.Journal.Layout.{
  Config, IsConfig, io_unit, region_header_size, record_header_size, commit_size, record_size,
  record_area_offset, journal_align_up, journal_lcm, journal_gcd, gcd_loop, safe_read_size,
  safe_program_size, region_start, region_end, range_valid,
}
use ecu_drivers.Nv.Journal.Monad.{JournalMemory, World}
use ecu_drivers.Nv.Journal.Memory.{format, format_storage, write, append, mount, compact}
use ecu_drivers.Nv.Journal.Storage.{
  erase_region, sync, write_region_header, write_region_commit, write_record, write_chunks,
  program_array,
}
use ecu_drivers.Nv.Journal.Durable.Rules.{Is}
use ecu_drivers.Nv.Journal.Durable.Region.{recovered}
use ecu_drivers.Nv.Journal.Durable.Recovery.{Recovers, mount-Recovers}
use ecu_drivers.Nv.Journal.Durable.State.{IsKept, IsKept-Keeps, is_full}
use ecu_drivers.Nv.Journal.Durable.Compaction.{compact-IsKept, compacted, snapshot}
use ecu_drivers.Nv.Journal.Durable.Survival.{Holding, Remounts, write-Holding, write-mount}
use ecu_drivers.Nv.Journal.Durable.Formatting.{format-Holding}

-- one byte kept in two regions of 166
abbrev tiny : Config
tiny = record {
  geometry = record { capacity = 332; read_size = 1; program_size = 1; erase_size = 1 };
  logical_capacity = 1;
  max_atomic_write_size = 1;
  base_offset = 0;
  region_size = 166;
}

tiny-IsConfig : IsConfig tiny
unfolding io_unit record_area_offset record_size journal_lcm safe_read_size journal_gcd gcd_loop
    safe_program_size region_header_size journal_align_up commit_size record_header_size
tiny-IsConfig = record {
  capacity_word = omega arith;
  capacity_pos = omega arith;
  read_pos = omega arith;
  program_pos = omega arith;
  erase_pos = omega arith;
  logical_pos = omega arith;
  atomic_pos = omega arith;
  atomic_le_logical = omega arith;
  base_erase_aligned = refl;
  base_io_aligned = refl;
  region_erase_aligned = refl;
  region_io_aligned = refl;
  base_inside = omega arith;
  regions_inside = omega arith;
  room = omega arith;
}

abbrev disk : NorFlash (List ℕ)
disk = record {
  read = λ offset size s. (success (slice s offset size), s);
  program = λ offset input s. (success tt, store s offset input);
  erase = λ offset size s. (success tt, store s offset (replicate size 0xFF));
  sync = λ s. (success tt, s);
}

abbrev bytes_of : List ℕ → List ℕ
bytes_of s = s

disk-IsLawful : IsLawful bytes_of disk
disk-IsLawful = record {
  reads = λ offset size s. (refl, refl);
  programs = λ offset input s erased. refl;
  erases = λ offset size s. refl;
  syncs = λ s. refl;
}

succeeded : {A B : Type 0} (a : A) (p : A × B) → p.0 ≡ a → p ≡ (a, p.1)
succeeded {A} {B} a p e = ap {B = A × B} (λ x. (x, p.1)) e

abbrev buffer : Span ℕ
buffer = Span.view (0 ∷ [])

abbrev blank_disk : List ℕ
blank_disk = replicate 332 0

-- what `format` hands out
abbrev new_journal : JournalMemory
new_journal = record {
  mirror = 0xFF ∷ [];
  generation = 1;
  last_sequence = 0;
  append_offset = 52;
  active_region = 0;
  tail_unusable = false;
}

abbrev new_disk : List ℕ
new_disk = (format tiny disk buffer blank_disk).1

formats : format tiny disk buffer blank_disk ≡ (success new_journal, new_disk)
unfolding format format_storage erase_region sync write_region_header write_region_commit
    program_array modify ◌>>=◌ region_start record_area_offset region_header_size commit_size
    journal_align_up io_unit journal_lcm journal_gcd gcd_loop safe_read_size safe_program_size
formats = succeeded (success new_journal) (format tiny disk buffer blank_disk) refl

both_regions : region_end tiny 1 ≤ length blank_disk
unfolding region_end region_start
both_regions = omega (arith, length-replicate {A = ℕ} 332 0)

format-Holding_example :
    Holding bytes_of tiny (0xFF ∷ []) new_journal new_disk × (new_journal.tail_unusable ≡ false)
format-Holding_example =
    format-Holding tiny-IsConfig disk disk-IsLawful buffer blank_disk new_disk new_journal
      both_regions formats

holds : Holding bytes_of tiny (0xFF ∷ []) new_journal new_disk
holds =
    (format-Holding tiny-IsConfig disk disk-IsLawful buffer blank_disk new_disk new_journal
      both_regions formats).0

mount-Recovers_example :
    Recovers bytes_of new_disk
      (recovered tiny 0 1 holds.entries (is_full tiny new_journal))
      (mount tiny disk buffer new_disk)
mount-Recovers_example =
    mount-Recovers tiny-IsConfig disk disk-IsLawful new_disk holds.entries
      (is_full tiny new_journal) 0 1
      (IsKept-Keeps tiny new_disk new_journal holds.entries holds.kept refl) buffer new_disk refl
      refl refl

abbrev before : World (List ℕ)
before = record { memory = new_journal; flash = new_disk }

abbrev seven : Span ℕ
seven = Span.view (7 ∷ [])

abbrev after : World (List ℕ)
after = (write tiny disk 0 seven before).1

writes : write tiny disk 0 seven before ≡ (success tt, after)
unfolding write append write_record write_chunks program_array on_error modify range_valid ◌>>=◌
    get_state pure record_size record_header_size region_start region_end record_area_offset
    region_header_size commit_size journal_align_up io_unit journal_lcm journal_gcd gcd_loop
    safe_read_size safe_program_size
writes = succeeded (success tt) (write tiny disk 0 seven before) refl

write-Holding_example :
    Holding bytes_of tiny (store (0xFF ∷ []) 0 (7 ∷ [])) after.memory after.flash
    × (after.memory.tail_unusable ≡ false)
write-Holding_example =
    write-Holding tiny-IsConfig disk disk-IsLawful 0 seven before after holds refl writes

write-mount_example :
    Remounts bytes_of tiny (store (0xFF ∷ []) 0 (7 ∷ [])) (mount tiny disk buffer after.flash)
write-mount_example =
    write-mount tiny-IsConfig disk disk-IsLawful 0 seven buffer before after after.flash holds refl
      writes refl refl refl

compact-IsKept_example :
    Ensures
      (Is bytes_of new_disk new_journal)
      (compact tiny disk)
      (λ _ w.
        (w.memory ≡ compacted tiny new_journal)
        × IsKept tiny w.flash (compacted tiny new_journal) (snapshot new_journal ∷ []))
      (λ _ _. Unit)
compact-IsKept_example =
    compact-IsKept tiny-IsConfig new_disk new_journal holds.entries holds.kept disk disk-IsLawful
