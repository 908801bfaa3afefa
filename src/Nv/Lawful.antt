-- ===== src/Nv/Lawful.antt =====
-- What the journal may rely on of a NOR flash (the concept of include/hal/contracts/nv.hpp): its
-- contents, and what successful and failed calls do to them.
use ecu_drivers.Prelude.{ℕ, ◌+◌, ◌≤◌, ◌≡◌, ◌⊎◌, List, length, replicate, slice, store}
use ecu_drivers.Foundation.Result.{Result, VoidResult, success, failure}
use ecu_drivers.Nv.Contract.{NorFlash, FlashErrorKind}

-- Outside of `size` bytes at `offset` two contents are the same.
abbrev pub AgreeOutside : ℕ → ℕ → List ℕ → List ℕ → Type 0
AgreeOutside offset size xs ys =
    (j n : ℕ) → (j + n ≤ offset) ⊎ (offset + size ≤ j) → slice ys j n ≡ slice xs j n

module _ {S : Type 0} (contents : S → List ℕ) where
  abbrev pub ReadOutcome : ℕ → ℕ → S → Result (List ℕ) FlashErrorKind × S → Type 0
  ReadOutcome offset size s (success bytes, s') =
      (bytes ≡ slice (contents s) offset size) × (contents s' ≡ contents s)
  ReadOutcome offset size s (failure e, s') = contents s' ≡ contents s

  abbrev pub ProgramOutcome : ℕ → List ℕ → S → VoidResult FlashErrorKind × S → Type 0
  ProgramOutcome offset input s (success _, s') = contents s' ≡ store (contents s) offset input
  ProgramOutcome offset input s (failure e, s') =
      AgreeOutside offset (length input) (contents s) (contents s')

  abbrev pub EraseOutcome : ℕ → ℕ → S → VoidResult FlashErrorKind × S → Type 0
  EraseOutcome offset size s (success _, s') =
      contents s' ≡ store (contents s) offset (replicate size 0xFF)
  EraseOutcome offset size s (failure e, s') = AgreeOutside offset size (contents s) (contents s')

  -- Reads give the contents and change nothing. On erased bytes programming puts its input, erasing
  -- puts 0xFF, and where they fail they have changed no other bytes.
  pub record IsLawful (flash : NorFlash S) : Type 0 where
    pub reads : (offset size : ℕ) (s : S) → ReadOutcome offset size s (flash.read offset size s)
    pub programs :
        (offset : ℕ) (input : List ℕ) (s : S)
        → slice (contents s) offset (length input) ≡ replicate (length input) 0xFF
        → ProgramOutcome offset input s (flash.program offset input s)
    pub erases : (offset size : ℕ) (s : S) → EraseOutcome offset size s (flash.erase offset size s)
    pub syncs : (s : S) → contents (flash.sync s).1 ≡ contents s
