-- ===== src/Nv/Contract.antt =====
-- include/hal/contracts/nv.hpp: the NOR flash that a journal stands on, and the byte memory that it
-- offers. The flash is a template parameter of the journal, so it is a record of operations
-- over a state of its own; a failed read leaves nothing that the journal looks at.
use ecu_drivers.Prelude.{ℕ, List}
use ecu_drivers.Foundation.Result.{Result, VoidResult}

pub data FlashErrorKind : Type 0 where
  out_of_range not_aligned program erase io other : FlashErrorKind

pub record FlashGeometry : Type 0 where
  pub capacity : ℕ
  pub read_size : ℕ
  pub program_size : ℕ
  pub erase_size : ℕ

pub record NorFlash (S : Type 0) : Type 0 where
  -- an offset and the number of bytes wanted
  pub read : ℕ → ℕ → S → Result (List ℕ) FlashErrorKind × S
  pub program : ℕ → List ℕ → S → VoidResult FlashErrorKind × S
  pub erase : ℕ → ℕ → S → VoidResult FlashErrorKind × S
  pub sync : S → VoidResult FlashErrorKind × S

pub data MemoryErrorKind : Type 0 where
  out_of_range too_large no_space corrupted io other : MemoryErrorKind

pub record MemoryProperties : Type 0 where
  pub capacity : ℕ
  pub max_atomic_write_size : ℕ
