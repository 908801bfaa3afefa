-- ===== src/Devices/St7735/Panel.antt =====
-- The panel profile, the configuration, the driver's errors and command codes, and the address
-- arithmetic of a drawing window.
use ecu_drivers.Prelude.{
  ℕ, ◌+◌, ◌-◌, ◌/◌, ◌%◌, ◌^◌, Bool, true, ◌&&◌, List, [], ◌∷◌, ltb, leb, ◌==◌,
}
use ecu_drivers.Foundation.Word.{u16}
use ecu_drivers.Spi.Contract.{ErrorKind, PinErrorKind, BusConfig, Mode, BitOrder}

pub data ErrorSource : Type 0 where
  bus chip_select data_command invalid_argument not_initialized : ErrorSource

pub record DisplayError : Type 0 where
  pub source : ErrorSource
  pub bus_kind : ErrorKind
  pub gpio_kind : PinErrorKind

abbrev pub bus_error : ErrorKind → DisplayError
bus_error kind = record {
  source = ErrorSource.bus;
  bus_kind = kind;
  gpio_kind = PinErrorKind.other;
}

abbrev pub chip_select_error : PinErrorKind → DisplayError
chip_select_error kind = record {
  source = ErrorSource.chip_select;
  bus_kind = ErrorKind.io;
  gpio_kind = kind;
}

abbrev pub data_command_error : PinErrorKind → DisplayError
data_command_error kind = record {
  source = ErrorSource.data_command;
  bus_kind = ErrorKind.io;
  gpio_kind = kind;
}

abbrev pub invalid_argument_error : DisplayError
invalid_argument_error = record {
  source = ErrorSource.invalid_argument;
  bus_kind = ErrorKind.configuration;
  gpio_kind = PinErrorKind.other;
}

abbrev pub not_initialized_error : DisplayError
not_initialized_error = record {
  source = ErrorSource.not_initialized;
  bus_kind = ErrorKind.configuration;
  gpio_kind = PinErrorKind.other;
}

pub record PanelProfile : Type 0 where
  pub width : ℕ
  pub height : ℕ
  pub column_offset : ℕ
  pub row_offset : ℕ
  pub madctl : ℕ
  pub color_mode : ℕ
  pub inversion_on : Bool

abbrev pub panel_valid : PanelProfile → Bool
panel_valid p =
    ltb 0 p.width
    && ltb 0 p.height
    && leb (p.column_offset + p.width) 0x1_0000
    && leb (p.row_offset + p.height) 0x1_0000
    && p.color_mode == 0x05

abbrev pub weact_mini_096_hannstar : PanelProfile
weact_mini_096_hannstar = record {
  width = 160;
  height = 80;
  column_offset = 1;
  row_offset = 26;
  madctl = 0xA8;
  color_mode = 0x05;
  inversion_on = true;
}

pub record DisplayConfig : Type 0 where
  pub panel : PanelProfile
  pub bus : BusConfig
  pub chip_select_setup : ℕ
  pub chip_select_hold : ℕ

abbrev pub config_valid : DisplayConfig → Bool
config_valid c = panel_valid c.panel && ltb 0 c.bus.max_frequency

abbrev pub weact_mini_096_configuration : DisplayConfig
weact_mini_096_configuration = record {
  panel = weact_mini_096_hannstar;
  bus = record {
    max_frequency = 12_000_000;
    clock_mode = Mode.mode0;
    order = BitOrder.msb_first;
    read_fill = 0xFF;
  };
  chip_select_setup = 0;
  chip_select_hold = 0;
}

pub data Command : Type 0 where
  software_reset read_id_1 read_id_2 read_id_3 sleep_out normal_display_on display_off : Command
  display_on column_address_set row_address_set memory_write : Command
  memory_data_access_control color_mode frame_rate_control_1 frame_rate_control_2 : Command
  frame_rate_control_3 frame_inversion_control power_control_1 power_control_2 : Command
  power_control_3 power_control_4 power_control_5 vcom_control positive_gamma : Command
  negative_gamma display_inversion_on display_inversion_off : Command

abbrev pub command_code : Command → ℕ
command_code Command.software_reset = 0x01
command_code Command.read_id_1 = 0xDA
command_code Command.read_id_2 = 0xDB
command_code Command.read_id_3 = 0xDC
command_code Command.sleep_out = 0x11
command_code Command.normal_display_on = 0x13
command_code Command.display_off = 0x28
command_code Command.display_on = 0x29
command_code Command.column_address_set = 0x2A
command_code Command.row_address_set = 0x2B
command_code Command.memory_write = 0x2C
command_code Command.memory_data_access_control = 0x36
command_code Command.color_mode = 0x3A
command_code Command.frame_rate_control_1 = 0xB1
command_code Command.frame_rate_control_2 = 0xB2
command_code Command.frame_rate_control_3 = 0xB3
command_code Command.frame_inversion_control = 0xB4
command_code Command.power_control_1 = 0xC0
command_code Command.power_control_2 = 0xC1
command_code Command.power_control_3 = 0xC2
command_code Command.power_control_4 = 0xC3
command_code Command.power_control_5 = 0xC4
command_code Command.vcom_control = 0xC5
command_code Command.positive_gamma = 0xE0
command_code Command.negative_gamma = 0xE1
command_code Command.display_inversion_on = 0x21
command_code Command.display_inversion_off = 0x20

unfoldable pub valid_window : PanelProfile → ℕ → ℕ → ℕ → ℕ → Bool
valid_window p x y width height =
    ltb 0 width
    && ltb 0 height
    && ltb x p.width
    && ltb y p.height
    && leb width (u16 (p.width - x))
    && leb height (u16 (p.height - y))
    && leb (p.column_offset + x + width) 0x1_0000
    && leb (p.row_offset + y + height) 0x1_0000

-- The first and the last address of a range, each as two bytes with the high one first. The sum is
-- taken in `int`, which is -1 for an empty range at zero.
unfoldable pub address_data : ℕ → ℕ → List ℕ
address_data start size =
    let stop = u16 (start + size + 2 ^ 16 - 1) in
    start / 2 ^ 8 ∷ start % 256 ∷ stop / 2 ^ 8 ∷ stop % 256 ∷ []
