-- ===== src/Nv/Journal/Memory/Tests.antt =====
-- Runs on a concrete flash: bytes that are read as erased, and calls that succeed.
use ecu_drivers.Prelude.{ℕ, ◌+◌, ◌≡◌, refl, Bool, [], ◌∷◌, arith, replicate}
use ecu_drivers.Foundation.Result.{success}
use ecu_drivers.Foundation.Span
use ecu_drivers.Nv.Contract.{NorFlash}
use ecu_drivers.Nv.Journal.Monad.{World}
use ecu_drivers.Nv.Journal.Layout.{
  region_start, region_end, record_area_offset, region_header_size, commit_size, journal_align_up,
  io_unit, journal_lcm, journal_gcd, gcd_loop, safe_read_size, safe_program_size, range_valid,
  record_size, record_header_size,
}
use ecu_drivers.Nv.Journal.Memory.Mount.{MountOutcome, mount_lem}
use ecu_drivers.Nv.Journal.Memory.{mount, format, write, append, read}
use ecu_drivers.Nv.Journal.Storage.{write_record, write_chunks, program_array}
use ecu_drivers.Foundation.Action.{on_error, modify, ◌>>=◌, get_state, pure}
use ecu_drivers.Nv.Journal.Memory.Mounted.{IsMounted}
use ecu_drivers.Nv.Journal.Memory.Write.{WriteOutcome, write_lem, write-read}
use ecu_drivers.Nv.Journal.Memory.Format.{FormatOutcome, format_lem}
use ecu_drivers.Nv.Journal.Example.{small, small-IsConfig}

-- The state counts the calls that change the flash.
abbrev counting : NorFlash ℕ
counting = record {
  read = λ offset size s. (success (replicate size 0xFF), s);
  program = λ offset input s. (success tt, s + 1);
  erase = λ offset size s. (success tt, s + 1);
  sync = λ s. (success tt, s);
}

abbrev mirror : Span.Span ℕ
mirror = Span.view (replicate 16 0)

format_lem_example : FormatOutcome small (format small counting mirror 0)
format_lem_example = format_lem small-IsConfig counting mirror 0

mount_lem_example : MountOutcome small (mount small counting mirror 0)
mount_lem_example = mount_lem small-IsConfig counting mirror 0

-- what `format` hands out
abbrev formatted : World ℕ
formatted = record {
  memory = record {
    mirror = replicate 16 0xFF;
    generation = 1;
    last_sequence = 0;
    append_offset = 56;
    active_region = 0;
    tail_unusable = Bool.false;
  };
  flash = 0;
}

formatted-IsMounted : IsMounted small formatted.memory
unfolding region_start region_end record_area_offset region_header_size commit_size journal_align_up
    io_unit journal_lcm journal_gcd gcd_loop safe_read_size safe_program_size
formatted-IsMounted = (refl, omega arith, omega arith, omega arith)

abbrev three : Span.Span ℕ
three = Span.view (7 ∷ 8 ∷ 9 ∷ [])

write_lem_example :
    WriteOutcome small
      (7 ∷ 8 ∷ 9 ∷ [])
      4
      (replicate 16 0xFF)
      (write small counting 4 three formatted)
write_lem_example = write_lem small-IsConfig counting 4 three formatted formatted-IsMounted

abbrev written : World ℕ
written = (write small counting 4 three formatted).1

writes : write small counting 4 three formatted ≡ (success tt, written)
unfolding write append write_record write_chunks program_array on_error modify range_valid ◌>>=◌
    get_state pure record_size record_header_size region_start region_end record_area_offset
    region_header_size commit_size journal_align_up io_unit journal_lcm journal_gcd gcd_loop
    safe_read_size safe_program_size
writes = refl

write-read_example :
    read small counting 4 (Span.view (0 ∷ 0 ∷ 0 ∷ [])) written ≡ (success (7 ∷ 8 ∷ 9 ∷ []), written)
write-read_example =
    write-read small-IsConfig counting 4 three (Span.view (0 ∷ 0 ∷ 0 ∷ [])) formatted written
      formatted-IsMounted writes refl refl
