-- ===== src/Devices/St7735/Driver.antt =====
-- The operations of `St7735`, over the logged bus, pins, delay and lock.
use ecu_drivers.Prelude.{
  ℕ, zero, suc, ◌+◌, ◌-◌, ◌*◌, ◌/◌, ◌%◌, ◌^◌, bit_or, Bool, true, ◌||◌, not, List, [], ◌∷◌, ltb,
  ◌==◌, length, get_or, if◌then◌else◌,
}
use ecu_drivers.Foundation.Word.{u16}
use ecu_drivers.Foundation.Result.{Result, success, failure}
use ecu_drivers.Foundation.Span
use ecu_drivers.Foundation.Span.{Span}
use ecu_drivers.Foundation.Action.{Action, pure, fail, get_state, modify, on_error, ◌>>=◌, ◌>>◌}
use ecu_drivers.Spi.Contract.{ErrorKind, Level}
use ecu_drivers.Spi.Trace.{Event, Log, Environment, World, call, emit, ignore, with_lock}
use ecu_drivers.Devices.St7735.Panel.{
  DisplayError, bus_error, chip_select_error, data_command_error, invalid_argument_error,
  not_initialized_error, PanelProfile, DisplayConfig, config_valid, Command, command_code,
  valid_window, address_data,
}

-- the fields that the operations change
pub record DisplayState : Type 0 where
  pub actual_frequency : ℕ
  pub initialized : Bool

abbrev pub DisplayAction : Type 0 → Type 0
DisplayAction A = Action (World DisplayState) DisplayError A

-- `chunk` pixels of one colour, high byte first
unfoldable pub pixel_row : ℕ → ℕ → List ℕ
pixel_row color zero = []
pixel_row color (suc chunk) = color / 2 ^ 8 ∷ color % 256 ∷ pixel_row color chunk

-- `size_max` is the largest `std::size_t` of the target
module _ (env : Environment) (config : DisplayConfig) (size_max : ℕ) where
  abbrev pub panel : PanelProfile
  panel = config.panel

  abbrev pub write_bus : List ℕ → DisplayAction Unit
  write_bus bytes = call (Event.bus_write bytes) env.bus_done bus_error

  -- the answer of `bus_.read`, with the bytes that it leaves
  abbrev pub read_answer : Log → Result (List ℕ) ErrorKind
  read_answer log = elim (env.bus_done log) [
    | success _ ↦ success (env.bus_bytes log)
    | failure e ↦ failure e
  ]

  abbrev pub read_bus : ℕ → DisplayAction (List ℕ)
  read_bus size = call (Event.bus_read size config.bus.read_fill) read_answer bus_error

  abbrev pub set_data_command : Level → DisplayAction Unit
  set_data_command level = call (Event.data_command level) env.pin_done data_command_error

  abbrev pub select : Level → DisplayAction Unit
  select level = call (Event.chip_select level) env.pin_done chip_select_error

  unfoldable pub release : World DisplayState → World DisplayState
  release w =
      ignore (Event.chip_select Level.high)
        (ignore (Event.delay_for config.chip_select_hold) (ignore Event.bus_flush w))

  -- what a transaction runs under the lock
  unfoldable pub locked_body : {A : Type 0} → DisplayAction A → DisplayAction A
  locked_body body = do
    frequency ← call (Event.bus_configure config.bus) env.configured bus_error
    modify (λ w. record w { driver = record (w.driver) { actual_frequency = frequency } })
    select Level.low
    emit (Event.delay_for config.chip_select_setup)
    value ← on_error body release
    on_error (call Event.bus_flush env.bus_done bus_error) release
    emit (Event.delay_for config.chip_select_hold)
    select Level.high
    pure value

  unfoldable pub transaction : {A : Type 0} → DisplayAction A → DisplayAction A
  transaction body =
      if not (config_valid config)
      then fail invalid_argument_error
      else with_lock (locked_body body)

  unfoldable pub write_command_active : Command → List ℕ → DisplayAction Unit
  write_command_active selected bytes = do
    set_data_command Level.low
    write_bus (command_code selected ∷ [])
    if length bytes == 0 then pure tt else (set_data_command Level.high >> write_bus bytes)

  unfoldable pub write_data_active : Span ℕ → DisplayAction Unit
  write_data_active bytes =
      if not (Span.valid bytes) || Span.empty bytes
      then fail invalid_argument_error
      else (set_data_command Level.high >> write_bus (Span.elements bytes))

  unfoldable pub read_register : Command → DisplayAction ℕ
  read_register selected = do
    set_data_command Level.low
    write_bus (command_code selected ∷ [])
    set_data_command Level.high
    bytes ← read_bus 1
    pure (get_or bytes 0 0)

  unfoldable pub send_command : Command → List ℕ → DisplayAction Unit
  send_command selected bytes = transaction (write_command_active selected bytes)

  unfoldable pub write_window_active : ℕ → ℕ → ℕ → ℕ → DisplayAction Unit
  write_window_active x y width height = do
    write_command_active Command.column_address_set
        (address_data (u16 (panel.column_offset + x)) width)
    write_command_active Command.row_address_set (address_data (u16 (panel.row_offset + y)) height)

  unfoldable pub set_window_and_madctl : DisplayAction Unit
  set_window_and_madctl = transaction (do
    write_window_active 0 0 panel.width panel.height
    write_command_active Command.memory_data_access_control (panel.madctl ∷ []))

  -- `if (!initialized_) return failure(not_initialized)`
  unfoldable pub if_initialized : {A : Type 0} → DisplayAction A → DisplayAction A
  if_initialized body = do
    w ← get_state
    if w.driver.initialized then body else fail not_initialized_error

  abbrev pub reset_pause : ℕ
  reset_pause = 120_000_000

  -- the table of register values that `initialize` sends behind the reset
  unfoldable pub send_settings : DisplayAction Unit
  send_settings = do
    send_command Command.frame_rate_control_1 (0x01 ∷ 0x2C ∷ 0x2D ∷ [])
    send_command Command.frame_rate_control_2 (0x01 ∷ 0x2C ∷ 0x2D ∷ [])
    send_command Command.frame_rate_control_3 (0x01 ∷ 0x2C ∷ 0x2D ∷ 0x01 ∷ 0x2C ∷ 0x2D ∷ [])
    send_command Command.frame_inversion_control (0x07 ∷ [])
    send_command Command.power_control_1 (0xA2 ∷ 0x02 ∷ 0x84 ∷ [])
    send_command Command.power_control_2 (0xC5 ∷ [])
    send_command Command.power_control_3 (0x0A ∷ 0x00 ∷ [])
    send_command Command.power_control_4 (0x8A ∷ 0x2A ∷ [])
    send_command Command.power_control_5 (0x8A ∷ 0xEE ∷ [])
    send_command Command.vcom_control (0x0E ∷ [])
    send_command
        (if panel.inversion_on then Command.display_inversion_on else Command.display_inversion_off)
        []
    send_command Command.color_mode (panel.color_mode ∷ [])
    send_command Command.positive_gamma (
        0x02 ∷ 0x1C ∷ 0x07 ∷ 0x12 ∷ 0x37 ∷ 0x32 ∷ 0x29 ∷ 0x2D ∷ 0x29 ∷ 0x25 ∷ 0x2B ∷ 0x39 ∷ 0x00
        ∷ 0x01 ∷ 0x03 ∷ 0x10 ∷ [])
    send_command Command.negative_gamma (
        0x03 ∷ 0x1D ∷ 0x07 ∷ 0x06 ∷ 0x2E ∷ 0x2C ∷ 0x29 ∷ 0x2D ∷ 0x2E ∷ 0x2E ∷ 0x37 ∷ 0x3F ∷ 0x00
        ∷ 0x00 ∷ 0x02 ∷ 0x10 ∷ [])
    send_command Command.normal_display_on []
    send_command Command.display_on []

  unfoldable pub initialize : DisplayAction Unit
  initialize = if not (config_valid config) then fail invalid_argument_error else (do
    send_command Command.software_reset []
    emit (Event.delay_for reset_pause)
    send_command Command.software_reset []
    emit (Event.delay_for reset_pause)
    send_command Command.sleep_out []
    emit (Event.delay_for reset_pause)
    send_settings
    set_window_and_madctl
    modify (λ w. record w { driver = record (w.driver) { initialized = true } }))

  unfoldable pub read_id : DisplayAction ℕ
  read_id = if_initialized (
      transaction (do
        first ← read_register Command.read_id_1
        second ← read_register Command.read_id_2
        third ← read_register Command.read_id_3
        pure (bit_or (bit_or (first * 2 ^ 16) (second * 2 ^ 8)) third)))

  unfoldable pub display_on : DisplayAction Unit
  display_on = if_initialized (do
    send_command Command.normal_display_on []
    send_command Command.display_on []
    send_command Command.memory_data_access_control (panel.madctl ∷ []))

  unfoldable pub display_off : DisplayAction Unit
  display_off = if_initialized (send_command Command.display_off [])

  unfoldable pub set_address_window : ℕ → ℕ → ℕ → ℕ → DisplayAction Unit
  set_address_window x y width height = if_initialized (
      if not (valid_window panel x y width height)
      then fail invalid_argument_error
      else transaction (write_window_active x y width height))

  unfoldable pub write_pixels : Span ℕ → DisplayAction Unit
  write_pixels pixels = if_initialized (
      if not (Span.valid pixels) || Span.empty pixels || not (Span.size pixels % 2 == 0)
      then fail invalid_argument_error
      else transaction (write_command_active Command.memory_write [] >> write_data_active pixels))

  unfoldable pub write_rect : ℕ → ℕ → ℕ → ℕ → Span ℕ → DisplayAction Unit
  write_rect x y width height pixels = if_initialized (
      if not (valid_window panel x y width height) || not (Span.valid pixels)
      then fail invalid_argument_error
      else if ltb size_max (width * height * 2) || not (Span.size pixels == width * height * 2)
      then fail invalid_argument_error
      else transaction (do
        write_window_active x y width height
        write_command_active Command.memory_write []
        write_data_active pixels))

  -- `for (row_index = 0; row_index < height; ++row_index)`, on the rounds left
  unfoldable pub fill_rows : ℕ → ℕ → ℕ → ℕ → ℕ → ℕ → DisplayAction Unit
  fill_rows zero row_index x y chunk color = pure tt
  fill_rows (suc rounds) row_index x y chunk color =
      write_rect x (u16 (y + row_index)) chunk 1 (Span.view (pixel_row color chunk))
      >> fill_rows rounds (row_index + 1) x y chunk color

  abbrev pub row_capacity_pixels : ℕ
  row_capacity_pixels = 256

  -- `while (x_offset < width)`: a round takes at least one column, so `width` rounds are enough.
  unfoldable pub fill_chunks : ℕ → ℕ → ℕ → ℕ → ℕ → ℕ → ℕ → DisplayAction Unit
  fill_chunks zero x_offset x y width height color = pure tt
  fill_chunks (suc fuel) x_offset x y width height color =
      let remaining = u16 (width - x_offset) in
      let chunk = if ltb remaining row_capacity_pixels then remaining else row_capacity_pixels in
      let rest =
        fill_rows height 0 (u16 (x + x_offset)) y chunk color
        >> fill_chunks fuel (u16 (x_offset + chunk)) x y width height color in
      if ltb x_offset width then rest else pure tt

  unfoldable pub fill_rect : ℕ → ℕ → ℕ → ℕ → ℕ → DisplayAction Unit
  fill_rect x y width height color = if_initialized (
      if not (valid_window panel x y width height)
      then fail invalid_argument_error
      else fill_chunks width 0 x y width height color)

  unfoldable pub draw_pixel : ℕ → ℕ → ℕ → DisplayAction Unit
  draw_pixel x y color = write_rect x y 1 1 (Span.view (color / 2 ^ 8 ∷ color % 256 ∷ []))
