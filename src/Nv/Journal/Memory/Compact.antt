-- ===== src/Nv/Journal/Memory/Compact.antt =====
-- The contracts of the two halves of `write`: a compaction, and the record appended behind it.
use native.Mathlib.Nat.{mul-le-mul_right, le-div_iff_mul-le, div-mul-le_self}
use ecu_drivers.Prelude.{
  ℕ, ◌+◌, ◌-◌, ◌≤◌, ◌<◌, ◌≡◌, ◌∙◌, ap, false, ◌||◌, List, ◌==◌, arith, length, length-store, store,
  if◌then◌else◌,
}
use ecu_drivers.Foundation.Word.{u64_max}
use ecu_drivers.Foundation.Action.{◌>>◌}
use ecu_drivers.Foundation.Action.Rules.{
  Ensures, fail-Ensures, >>=-Ensures, if-Ensures, on_error-Ensures,
}
use ecu_drivers.Nv.Contract.{NorFlash}
use ecu_drivers.Nv.Journal.Layout.{
  Config, IsConfig, io_unit, region_start, region_end, record_area_offset, record_size,
  journal_align_up,
}
use ecu_drivers.Nv.Journal.Layout.Sizes.{io_unit_lem}
use ecu_drivers.Nv.Journal.Monad.{JournalMemory, World, JournalAction}
use ecu_drivers.Nv.Journal.Storage.{
  erase_region, sync, write_region_header, write_region_commit, program_array,
}
use ecu_drivers.Nv.Journal.Memory.{compact, append}
use ecu_drivers.Nv.Journal.Memory.Mounted.{
  IsMounted, on_flash-Ensures, write_record-Ensures, get_memory-Ensures, assign-Ensures,
}

align_up_mono :
    (a b unit : ℕ) → 0 < unit → a ≤ b → journal_align_up a unit ≤ journal_align_up b unit
unfolding journal_align_up
align_up_mono a b unit pos h =
    mul-le-mul_right unit
      ((le-div_iff_mul-le pos).1 (omega (arith, div-mul-le_self (a + unit - 1) unit)))

record_size_mono : {c : Config} → IsConfig c → (a b : ℕ) → a ≤ b → record_size c a ≤ record_size c b
unfolding record_size
record_size_mono {c} ok a b h = omega (arith, align_up_mono a b (io_unit c) (io_unit_lem ok).0 h)

-- Behind a snapshot of everything, a region has room for a record of any size that `write` takes.
pub room_for :
    {c : Config}
    → IsConfig c
    → (region n : ℕ) → n ≤ c.max_atomic_write_size
    → region_start c region
        + record_area_offset c
        + record_size c c.logical_capacity
        + record_size c n
      ≤ region_end c region
unfolding region_end
room_for {c} ok region n small =
    omega (arith, ok.room, record_size_mono ok n c.max_atomic_write_size small)

-- mounted, with this mirror
abbrev pub Holds : Config → List ℕ → JournalMemory → Type 0
Holds c ys m = IsMounted c m × (m.mirror ≡ ys)

-- and with room for a record of so many bytes
abbrev pub HasRoom : Config → List ℕ → ℕ → JournalMemory → Type 0
HasRoom c ys n m = Holds c ys m × (m.append_offset + record_size c n ≤ region_end c m.active_region)

-- still that one, with this mirror
abbrev pub Same : Config → List ℕ → JournalMemory → JournalMemory → Type 0
Same c ys m mem = (m ≡ mem) × Holds c ys mem

module _ {S : Type 0} {c : Config} (ok : IsConfig c) (flash : NorFlash S) (xs : List ℕ) where
  pub append-Ensures :
      (offset : ℕ) (input : List ℕ)
      → Ensures
          (λ (w : World S). HasRoom c xs (length input) w.memory)
          (append c flash offset input)
          (λ _ w. Holds c (store xs offset input) w.memory)
          (λ _ w. Holds c xs w.memory)
  unfolding append
  append-Ensures offset input =
      >>=-Ensures (λ m w. (m ≡ w.memory) × HasRoom c xs (length input) w.memory)
        (get_memory-Ensures (HasRoom c xs (length input)))
        (λ m.
          if-Ensures (m.last_sequence == u64_max) (λ _. fail-Ensures _ (λ w h. h.1.0))
            (λ _.
              >>=-Ensures (λ _ w. (m ≡ w.memory) × HasRoom c xs (length input) w.memory)
                (on_error-Ensures _ (λ _ w. HasRoom c xs (length input) w.memory)
                  (write_record-Ensures (λ mem. (m ≡ mem) × HasRoom c xs (length input) mem)
                    (λ e w h. h.1) c flash _ _ _ _)
                  (λ e w h. h.0))
                (λ _.
                  assign-Ensures (λ mem. (m ≡ mem) × HasRoom c xs (length input) mem)
                    (Holds c (store xs offset input)) _ (λ mem h. stored mem h.1))))
    where
      stored :
          (mem : JournalMemory)
          → HasRoom c xs (length input) mem
          → Holds c (store xs offset input) (record mem {
            mirror = store mem.mirror offset input;
            append_offset = mem.append_offset + record_size c (length input);
          })
      stored mem h = (
        (length-store mem.mirror offset input ∙ h.0.0.0, h.0.0.1, omega (arith, h), h.1),
        ap (λ l. store l offset input) h.0.1,
      )

  still :
      (P : JournalMemory → Type 0) {R : Unit → World S → Type 0}
      {first later : JournalAction S Unit}
      → Ensures (λ (w : World S). P w.memory) first (λ _ w. P w.memory) (λ _ w. Holds c xs w.memory)
      → Ensures (λ (w : World S). P w.memory) later R (λ _ w. Holds c xs w.memory)
      → Ensures (λ (w : World S). P w.memory) (first >> later) R (λ _ w. Holds c xs w.memory)
  still P h k = >>=-Ensures (λ _ w. P w.memory) h (λ _. k)

  pub compact-Ensures :
      (n : ℕ)
      → n ≤ c.max_atomic_write_size
      → Ensures
          (λ (w : World S). Holds c xs w.memory)
          (compact c flash)
          (λ _ w. HasRoom c xs n w.memory)
          (λ _ w. Holds c xs w.memory)
  unfolding compact erase_region write_region_header write_region_commit sync program_array
  compact-Ensures n small =
      >>=-Ensures (λ m w. Same c xs m w.memory) (get_memory-Ensures (Holds c xs))
        (λ m.
          if-Ensures (m.generation == u64_max || m.last_sequence == u64_max)
            (λ _. fail-Ensures _ (λ w h. h.1))
            (λ _. still (Same c xs m) (on_flash-Ensures (Same c xs m) (λ e w h. h.1) _) (
              still (Same c xs m) (on_flash-Ensures (Same c xs m) (λ e w h. h.1) _) (
                still (Same c xs m)
                  (write_record-Ensures (Same c xs m) (λ e w h. h.1) c flash _ _ _ _)
                  (still (Same c xs m) (on_flash-Ensures (Same c xs m) (λ e w h. h.1) _) (
                    still (Same c xs m) (on_flash-Ensures (Same c xs m) (λ e w h. h.1) _) (
                      still (Same c xs m) (on_flash-Ensures (Same c xs m) (λ e w h. h.1) _) (
                        >>=-Ensures (λ _ w. HasRoom c xs n w.memory)
                          (assign-Ensures (Same c xs m) (HasRoom c xs n) _ (λ mem h.
                            moved m.active_region (m.generation + 1) (m.last_sequence + 1) mem h.1))
                          (λ _. on_flash-Ensures (HasRoom c xs n) (λ e w h. h.0) _)))))))))
    where
      moved :
          (region generation last : ℕ) (mem : JournalMemory)
          → Holds c xs mem
          → let destination : ℕ = if region == 0 then 1 else 0 in
            HasRoom c xs n (record mem {
              active_region = destination;
              generation = generation;
              last_sequence = last;
              append_offset =
                  region_start c destination
                  + record_area_offset c
                  + record_size c c.logical_capacity;
              tail_unusable = false;
            })
      moved region generation last mem h =
          let destination : ℕ = if region == 0 then 1 else 0 in
          let room = room_for ok destination n small in
          (((h.0.0, ground arith, omega arith, omega (arith, room)), h.1), room)
