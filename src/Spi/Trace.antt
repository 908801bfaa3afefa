-- ===== src/Spi/Trace.antt =====
-- What a driver does to the objects that it is given by reference: the bus, the pins, the delay and
-- the lock. These are template parameters, so each call is an event on a log, the latest
-- first, and every answer is a function of the log: the environment may do anything.
pub mod Rules
use ecu_drivers.Prelude.{ℕ, Bool, true, false, Option, none, some, List, [], ◌∷◌}
use ecu_drivers.Foundation.Result.{Result, VoidResult, success, failure, map_error}
use ecu_drivers.Foundation.Action.{Action}
use ecu_drivers.Spi.Contract.{ErrorKind, Level, PinErrorKind, BusConfig}

pub data Event : Type 0 where
  lock unlock bus_flush : Event
  bus_configure : BusConfig → Event
  bus_write : List ℕ → Event
  -- the number of bytes wanted, and the fill byte
  bus_read : ℕ → ℕ → Event
  -- the bytes to send, and the number of bytes wanted
  bus_transfer : List ℕ → ℕ → Event
  chip_select data_command : Level → Event
  delay_for : ℕ → Event

abbrev pub Log : Type 0
Log = List Event

-- The answers to a call, given the log with that call on top. A read or transfer also leaves bytes.
pub record Environment : Type 0 where
  pub configured : Log → Result ℕ ErrorKind
  pub bus_done : Log → VoidResult ErrorKind
  pub bus_bytes : Log → List ℕ
  pub pin_done : Log → VoidResult PinErrorKind

-- The driver object's own fields, and the log.
pub record World (D : Type 0) : Type 0 where
  pub driver : D
  pub log : Log

module _ {D E : Type 0} where
  -- a call that answers
  unfoldable pub call : {A X : Type 0} → Event → (Log → Result A X) → (X → E) → Action (World D) E A
  call event answer wrap w =
      let log = event ∷ w.log in (map_error wrap (answer log), record w { log = log })

  -- a call without an answer
  unfoldable pub emit : Event → Action (World D) E Unit
  emit event w = (success tt, record w { log = event ∷ w.log })

-- a call whose answer is ignored, `(void)...`
abbrev pub ignore : {D : Type 0} → Event → World D → World D
ignore event w = record w { log = event ∷ w.log }

-- `detail::lock_guard`: the lock is released on every way out
unfoldable pub with_lock : {D E A : Type 0} → Action (World D) E A → Action (World D) E A
with_lock body w = let (r, w') = body (ignore Event.lock w) in (r, ignore Event.unlock w')

-- the level that the chip select was last told to take
abbrev pub last_select : Log → Option Level
last_select [] = none
last_select (Event.chip_select level ∷ log) = some level
last_select (_ ∷ log) = last_select log

-- whether the lock is held
abbrev pub is_locked : Log → Bool
is_locked [] = false
is_locked (Event.lock ∷ log) = true
is_locked (Event.unlock ∷ log) = false
is_locked (_ ∷ log) = is_locked log
