-- ===== src/Spi/Tests.antt =====
-- A transaction with concrete answers of the bus and the pin.
use ecu_drivers.Prelude.{◌≡◌, refl, inl, false, arith, [], ◌∷◌}
use ecu_drivers.Foundation.Result.{success, failure}
use ecu_drivers.Foundation.Span
use ecu_drivers.Foundation.Span.{Span}
use ecu_drivers.Spi.Contract.{Level, Mode, BitOrder, Operation, write_operation, delay_operation}
use ecu_drivers.Spi.Trace.{Event, Environment, World, with_lock, call, emit}
use ecu_drivers.Foundation.Action.{◌>>=◌, modify, on_error, pure}
use ecu_drivers.Spi.StaticDevice.{
  Device, DeviceState, locked_transaction, configure, execute_all, execute, transaction,
  invalid_operation_error,
}
use ecu_drivers.Spi.StaticDevice.Release.{EndsReleased, transaction_releases}
use ecu_drivers.Spi.StaticDevice.Refuse.{transaction_refuses}
use ecu_drivers.Spi.StaticDevice.Sequence.{transaction_events, transaction_succeeds}

abbrev quiet_bus : Environment
quiet_bus = record {
  configured = λ log. success 1000000;
  bus_done = λ log. success tt;
  bus_bytes = λ log. [];
  pin_done = λ log. success tt;
}

abbrev device : Device
device = record {
  configuration = record {
    bus = record {
      max_frequency = 1000000;
      clock_mode = Mode.mode0;
      order = BitOrder.msb_first;
      read_fill = 0xFF;
    };
    cs_setup = 10;
    cs_hold = 20;
  };
  asserted_level = Level.low;
  supports_lsb_first = false;
}

abbrev idle : World DeviceState
idle = record { driver = record { actual_frequency = 0 }; log = [] }

abbrev two_operations : Span Operation
two_operations = Span.view (write_operation (Span.view (1 ∷ 2 ∷ [])) ∷ delay_operation 500 ∷ [])

transaction_releases_example :
    EndsReleased quiet_bus device [] (transaction quiet_bus device two_operations idle)
transaction_releases_example = transaction_releases quiet_bus device two_operations idle refl

-- a write whose span is null, but not empty
abbrev bad_operation : Span Operation
bad_operation = Span.view (write_operation (Span.null 3) ∷ [])

transaction_refuses_example :
    transaction quiet_bus device bad_operation idle ≡ (failure invalid_operation_error, idle)
transaction_refuses_example =
    transaction_refuses quiet_bus device bad_operation idle
      (inl ([], write_operation (Span.null 3), [], refl, λ good. omega (arith, good.0)))

abbrev done : World DeviceState
done = record {
  driver = record { actual_frequency = 1000000 };
  log = transaction_events quiet_bus device (Span.elements two_operations) [];
}

runs : transaction quiet_bus device two_operations idle ≡ (success tt, done)
unfolding transaction with_lock locked_transaction ◌>>=◌ configure call modify emit on_error
    execute_all execute pure
runs = refl

transaction_succeeds_example :
    (done.log ≡ transaction_events quiet_bus device (Span.elements two_operations) idle.log)
    × (quiet_bus.configured (Event.bus_configure device.configuration.bus ∷ Event.lock ∷ idle.log)
        ≡ success done.driver.actual_frequency)
transaction_succeeds_example = transaction_succeeds quiet_bus device two_operations idle done runs
