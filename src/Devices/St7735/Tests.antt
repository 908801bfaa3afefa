-- ===== src/Devices/St7735/Tests.antt =====
-- A window on the WeAct panel, and a display that fails to initialize.
use ecu_drivers.Prelude.{[], ◌∷◌, arith, refl, false}
use ecu_drivers.Foundation.Result.{success, failure}
use ecu_drivers.Foundation.Span
use ecu_drivers.Spi.Contract.{ErrorKind}
use ecu_drivers.Spi.Trace.{Environment, World}
use ecu_drivers.Devices.St7735.Panel.{
  valid_window, weact_mini_096_hannstar, weact_mini_096_configuration,
}
use ecu_drivers.Devices.St7735.Driver.{DisplayState, initialize}
use ecu_drivers.Devices.St7735.Window.{AddressesLines, window_addresses}
use ecu_drivers.Devices.St7735.Initialized.{Decided, initialize_decides}

window_addresses_example : AddressesLines 1 160 20 100 × AddressesLines 26 80 0 80
unfolding valid_window
window_addresses_example =
    window_addresses weact_mini_096_hannstar 20 0 100 80 (omega arith) (omega arith) refl

abbrev fresh_display : World DisplayState
fresh_display = record { driver = record { actual_frequency = 0; initialized = false }; log = [] }

-- a display whose bus fails at its first write
abbrev deaf_display : Environment
deaf_display = record {
  configured = λ log. success 12000000;
  bus_done = λ log. failure ErrorKind.timeout;
  bus_bytes = λ log. [];
  pin_done = λ log. success tt;
}

initialize_decides_example :
    Decided deaf_display weact_mini_096_configuration 65535 0 0 8 8 3
      (Span.view (1 ∷ 2 ∷ []))
      (initialize deaf_display weact_mini_096_configuration 65535 fresh_display)
initialize_decides_example =
    initialize_decides deaf_display weact_mini_096_configuration 65535 0 0 8 8 3
      (Span.view (1 ∷ 2 ∷ [])) fresh_display refl
