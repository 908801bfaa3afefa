-- ===== src/Nv/Journal/Monad.antt =====
-- The fields of a `JournalMemory` and the flash that it drives.
use ecu_drivers.Prelude.{ℕ, Bool, List}
use ecu_drivers.Foundation.Action.{Action, get_state, modify, pure, ◌>>=◌}
use ecu_drivers.Nv.Journal.Error.{JournalError}

-- `region` numbers are 0 and 1. `mirror` is what the caller-supplied buffer holds.
pub record JournalMemory : Type 0 where
  pub mirror : List ℕ
  pub generation : ℕ
  pub last_sequence : ℕ
  pub append_offset : ℕ
  pub active_region : ℕ
  pub tail_unusable : Bool

pub record World (S : Type 0) : Type 0 where
  pub memory : JournalMemory
  pub flash : S

abbrev pub JournalAction : Type 0 → Type 0 → Type 0
JournalAction S A = Action (World S) JournalError A

module _ {S : Type 0} where
  abbrev pub get_memory : JournalAction S JournalMemory
  get_memory = get_state >>= λ w. pure w.memory

  -- an assignment to fields of the object
  abbrev pub update : (JournalMemory → JournalMemory) → World S → World S
  update f w = record w { memory = f w.memory }

  abbrev pub assign : (JournalMemory → JournalMemory) → JournalAction S Unit
  assign f = modify (update f)
