-- ===== src/Nv/Journal/Memory/Mounted.antt =====
-- The invariant of a mounted journal, and the contracts of the operations that keep it.
use ecu_drivers.Prelude.{ℕ, zero, suc, ◌+◌, ◌≤◌, ◌≡◌, ap, List, ◌==◌, length, drop, min}
use ecu_drivers.Foundation.Result.{Result, success, failure, map_error}
use ecu_drivers.Foundation.Action.Rules.{
  Post, Ensures, pure-Ensures, modify-Ensures, get_state-Ensures, >>=-Ensures, if-Ensures,
}
use ecu_drivers.Nv.Contract.{NorFlash, FlashErrorKind}
use ecu_drivers.Nv.Journal.Error.{JournalError, flash_error}
use ecu_drivers.Nv.Journal.Layout.{Config, io_unit, region_start, region_end, record_area_offset}
use ecu_drivers.Nv.Journal.Monad.{JournalMemory, World, get_memory, assign}
use ecu_drivers.Nv.Journal.Storage.{on_flash, program_array, write_chunks, write_record}

-- The mirror has its full size, the active region is one of the two, and the next record goes
-- behind that region's header and at most to its end.
abbrev pub IsMounted : Config → JournalMemory → Type 0
IsMounted c m =
    (length m.mirror ≡ c.logical_capacity)
    × (m.active_region ≤ 1)
    × (region_start c m.active_region + record_area_offset c ≤ m.append_offset)
    × (m.append_offset ≤ region_end c m.active_region)

-- What the flash does leaves the fields of the object alone.
module _ {S : Type 0} (P : JournalMemory → Type 0) {F : JournalError → World S → Type 0}
    (lose : (e : JournalError) (w : World S) → P w.memory → F e w) where
  pub on_flash-Ensures :
      {A : Type 0} (call : S → Result A FlashErrorKind × S)
      → Ensures (λ w. P w.memory) (on_flash call) (λ _ w. P w.memory) F
  on_flash-Ensures {A = A} call = record { apply = λ w p. go (call w.flash) w p }
    where
      go :
          (out : Result A FlashErrorKind × S) (w : World S)
          → P w.memory
          → Post (λ _ w'. P w'.memory) F (map_error flash_error out.0, record w { flash = out.1 })
      go (success a, s) w p = p
      go (failure e, s) w p = lose (flash_error e) (record w { flash = s }) p

  module _ (c : Config) (flash : NorFlash S) where
    write_chunks-Ensures :
        (fuel destination : ℕ) (remaining : List ℕ)
        → Ensures
            (λ w. P w.memory)
            (write_chunks c flash fuel destination remaining)
            (λ _ w. P w.memory)
            F
    unfolding write_chunks program_array
    write_chunks-Ensures zero destination remaining = pure-Ensures _ destination (λ w h. h)
    write_chunks-Ensures (suc fuel) destination remaining =
        if-Ensures (length remaining == 0) (λ _. pure-Ensures _ destination (λ w h. h))
          (λ _.
            >>=-Ensures (λ _ w. P w.memory) (on_flash-Ensures _)
              (λ _.
                write_chunks-Ensures fuel (destination + io_unit c)
                  (drop (min (length remaining) (io_unit c)) remaining)))

    pub write_record-Ensures :
        (flash_offset sequence logical_offset : ℕ) (payload : List ℕ)
        → Ensures
            (λ w. P w.memory)
            (write_record c flash flash_offset sequence logical_offset payload)
            (λ _ w. P w.memory)
            F
    unfolding write_record program_array
    write_record-Ensures flash_offset sequence logical_offset payload =
        >>=-Ensures (λ _ w. P w.memory) (on_flash-Ensures _)
          (λ _.
            >>=-Ensures (λ _ w. P w.memory) (write_chunks-Ensures _ _ _) (λ _. on_flash-Ensures _))

pub get_memory-Ensures :
    {S : Type 0} (P : JournalMemory → Type 0) {F : JournalError → World S → Type 0}
    → Ensures (λ (w : World S). P w.memory) get_memory (λ m w. (m ≡ w.memory) × P w.memory) F
get_memory-Ensures P =
    >>=-Ensures (λ v w. (v ≡ w) × P w.memory) get_state-Ensures
      (λ v. pure-Ensures _ v.memory (λ w h. (ap (λ (u : World _). u.memory) h.0, h.1)))

pub assign-Ensures :
    {S : Type 0} (P Q : JournalMemory → Type 0) {F : JournalError → World S → Type 0}
    (f : JournalMemory → JournalMemory)
    → ((m : JournalMemory) → P m → Q (f m))
    → Ensures (λ (w : World S). P w.memory) (assign f) (λ _ w. Q w.memory) F
assign-Ensures P Q f h = modify-Ensures _ (λ w p. h w.memory p)
