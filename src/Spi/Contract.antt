-- ===== src/Spi/Contract.antt =====
-- include/hal/contracts/spi.hpp and spi_bus.hpp: operations and bus configuration, with the levels
-- and errors of include/hal/contracts/gpio.hpp. Durations and frequencies are plain counts.
use ecu_drivers.Prelude.{ℕ, Bool, ◌&&◌}
use ecu_drivers.Foundation.Span
use ecu_drivers.Foundation.Span.{Span}

pub data ErrorKind : Type 0 where
  timeout busy configuration io other : ErrorKind

pub data Level : Type 0 where
  low high : Level

pub data PinErrorKind : Type 0 where
  io unavailable other : PinErrorKind

pub data Mode : Type 0 where
  mode0 mode1 mode2 mode3 : Mode

pub data BitOrder : Type 0 where
  msb_first lsb_first : BitOrder

pub record BusConfig : Type 0 where
  pub max_frequency : ℕ
  pub clock_mode : Mode
  pub order : BitOrder
  pub read_fill : ℕ

pub data OperationKind : Type 0 where
  write read transfer delay : OperationKind

-- `operation8`: a kind with all its fields, of which the factories fill those that it uses
pub record Operation : Type 0 where
  pub kind : OperationKind
  pub tx : Span ℕ
  pub rx : Span ℕ
  pub duration : ℕ

abbrev pub no_span : Span ℕ
no_span = Span.null 0

abbrev pub write_operation : Span ℕ → Operation
write_operation bytes = record {
  kind = OperationKind.write;
  tx = bytes;
  rx = no_span;
  duration = 0;
}

abbrev pub read_operation : Span ℕ → Operation
read_operation buffer = record {
  kind = OperationKind.read;
  tx = no_span;
  rx = buffer;
  duration = 0;
}

abbrev pub transfer_operation : Span ℕ → Span ℕ → Operation
transfer_operation bytes buffer = record {
  kind = OperationKind.transfer;
  tx = bytes;
  rx = buffer;
  duration = 0;
}

abbrev pub delay_operation : ℕ → Operation
delay_operation nanoseconds = record {
  kind = OperationKind.delay;
  tx = no_span;
  rx = no_span;
  duration = nanoseconds;
}

abbrev pub valid : Operation → Bool
valid op = elim op.kind [
  | OperationKind.write ↦ Span.valid op.tx && Span.empty op.rx
  | OperationKind.read ↦ Span.empty op.tx && Span.valid op.rx
  | OperationKind.transfer ↦ Span.valid op.tx && Span.valid op.rx
  | OperationKind.delay ↦ Span.empty op.tx && Span.empty op.rx
]
