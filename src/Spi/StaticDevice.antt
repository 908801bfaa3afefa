-- ===== src/Spi/StaticDevice.antt =====
-- include/hal/adapters/spi_static_device.hpp, `StaticDevice8`: a bus, a chip select, a delay and a
-- lock as one transaction boundary.
pub mod Release
pub mod Sequence
pub mod Refuse
use ecu_drivers.Prelude.{ℕ, Bool, true, false, ◌&&◌, ◌||◌, not, List, [], ◌∷◌, if◌then◌else◌}
use ecu_drivers.Foundation.Span
use ecu_drivers.Foundation.Span.{Span}
use ecu_drivers.Foundation.Action.{Action, pure, fail, modify, on_error, ◌>>=◌, ◌>>◌}
use ecu_drivers.Spi.Contract
use ecu_drivers.Spi.Contract.{
  ErrorKind, Level, PinErrorKind, BusConfig, BitOrder, Operation, OperationKind,
}
use ecu_drivers.Spi.Trace.{Event, Environment, World, call, emit, ignore, with_lock}

pub record DeviceConfig : Type 0 where
  pub bus : BusConfig
  pub cs_setup : ℕ
  pub cs_hold : ℕ

pub data StaticDeviceErrorSource : Type 0 where
  bus chip_select invalid_operation unsupported_bit_order : StaticDeviceErrorSource

pub record StaticDeviceError : Type 0 where
  pub kind : ErrorKind
  pub source : StaticDeviceErrorSource

abbrev pub bus_error : ErrorKind → StaticDeviceError
bus_error kind = record { kind = kind; source = StaticDeviceErrorSource.bus }

abbrev pub chip_select_error : StaticDeviceError
chip_select_error = record { kind = ErrorKind.io; source = StaticDeviceErrorSource.chip_select }

abbrev pub invalid_operation_error : StaticDeviceError
invalid_operation_error = record {
  kind = ErrorKind.configuration;
  source = StaticDeviceErrorSource.invalid_operation;
}

abbrev pub unsupported_bit_order_error : StaticDeviceError
unsupported_bit_order_error = record {
  kind = ErrorKind.configuration;
  source = StaticDeviceErrorSource.unsupported_bit_order;
}

-- `StaticDevice8`: its configuration is fixed at construction. `supports_lsb_first` is the bus's.
pub record Device : Type 0 where
  pub configuration : DeviceConfig
  pub asserted_level : Level
  pub supports_lsb_first : Bool

-- the field that a transaction changes
pub record DeviceState : Type 0 where
  pub actual_frequency : ℕ

abbrev pub opposite : Level → Level
opposite Level.low = Level.high
opposite Level.high = Level.low

abbrev pub DeviceAction : Type 0 → Type 0
DeviceAction A = Action (World DeviceState) StaticDeviceError A

abbrev pub all_valid : List Operation → Bool
all_valid [] = true
all_valid (op ∷ ops) = Contract.valid op && all_valid ops

abbrev pub is_lsb_first : BitOrder → Bool
is_lsb_first BitOrder.msb_first = false
is_lsb_first BitOrder.lsb_first = true

module _ (env : Environment) (d : Device) where
  abbrev pub deasserted_level : Level
  deasserted_level = opposite d.asserted_level

  abbrev pub bus_call : Event → DeviceAction Unit
  bus_call event = call event env.bus_done bus_error

  abbrev pub select : Level → DeviceAction Unit
  select level = call (Event.chip_select level) env.pin_done (λ _. chip_select_error)

  unfoldable pub execute : Operation → DeviceAction Unit
  execute op = elim op.kind [
    | OperationKind.write ↦ bus_call (Event.bus_write (Span.elements op.tx))
    | OperationKind.read ↦ bus_call (Event.bus_read (Span.size op.rx) d.configuration.bus.read_fill)
    | OperationKind.transfer ↦ bus_call (Event.bus_transfer (Span.elements op.tx) (Span.size op.rx))
    | OperationKind.delay ↦ bus_call Event.bus_flush >> emit (Event.delay_for op.duration)
  ]

  -- `best_effort_release` while selected: its errors are ignored
  unfoldable pub best_effort_release : World DeviceState → World DeviceState
  best_effort_release w =
      ignore (Event.chip_select deasserted_level)
        (ignore (Event.delay_for d.configuration.cs_hold) (ignore Event.bus_flush w))

  unfoldable pub execute_all : List Operation → DeviceAction Unit
  execute_all [] = pure tt
  execute_all (op ∷ ops) = execute op >> execute_all ops

  -- `bus_.configure`, whose answer becomes `actual_frequency_`
  unfoldable pub configure : DeviceAction Unit
  configure =
      call (Event.bus_configure d.configuration.bus) env.configured bus_error >>= λ frequency.
      modify (λ w. record w { driver = record { actual_frequency = frequency } })

  -- what runs under the lock
  unfoldable pub locked_transaction : List Operation → DeviceAction Unit
  locked_transaction operations = do
    configure
    select d.asserted_level
    emit (Event.delay_for d.configuration.cs_setup)
    on_error (execute_all operations) best_effort_release
    on_error (bus_call Event.bus_flush) best_effort_release
    emit (Event.delay_for d.configuration.cs_hold)
    select deasserted_level

  unfoldable pub transaction : Span Operation → DeviceAction Unit
  transaction operations =
      if not (Span.valid operations) || not (all_valid (Span.elements operations))
      then fail invalid_operation_error
      else if is_lsb_first d.configuration.bus.order && not d.supports_lsb_first
      then fail unsupported_bit_order_error
      else with_lock (locked_transaction (Span.elements operations))
