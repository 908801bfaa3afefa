-- ===== src/Devices/St7735/Initialized.antt =====
-- What `initialize` of devices/include/hal/devices/st7735.hpp decides: whether the other operations run.
use ecu_drivers.Prelude.{ℕ, ◌≡◌, refl, true, false, not, List, [], ◌==◌, length}
use ecu_drivers.Foundation.Result.{Result, success, failure}
use ecu_drivers.Foundation.Span.{Span}
use ecu_drivers.Foundation.Action.{fail, get_state, ◌>>=◌}
use ecu_drivers.Foundation.Action.Rules.{
  Ensures, Post, pure-Ensures, fail-Ensures, modify-Ensures, >>=-Ensures, if-Ensures,
  on_error-Ensures,
}
use ecu_drivers.Spi.Trace.{Event, Log, Environment, World, call, emit, ignore, with_lock}
use ecu_drivers.Spi.Trace.Rules.{call-Ensures, emit-Ensures}
use ecu_drivers.Devices.St7735.Panel.{
  DisplayConfig, DisplayError, Command, config_valid, not_initialized_error,
}
use ecu_drivers.Devices.St7735.Driver.{
  DisplayState, DisplayAction, if_initialized, read_id, display_on, display_off, set_address_window,
  write_pixels, write_rect, fill_rect, draw_pixel, initialize, send_settings, send_command,
  set_window_and_madctl, transaction, locked_body, write_command_active, write_window_active,
  release,
}

-- the call refuses, and nothing has happened
abbrev pub Refuses : {A : Type 0} → DisplayAction A → World DisplayState → Type 0
Refuses m w = m w ≡ (failure not_initialized_error, w)

abbrev Fresh : World DisplayState → Type 0
Fresh w = w.driver.initialized ≡ false

-- the call leaves a display that is not initialized as it was, whether it succeeds or not
abbrev Keeps : {A : Type 0} → DisplayAction A → Type 0
Keeps m = Ensures Fresh m (λ _. Fresh) (λ _. Fresh)

with_lock-Keeps : {A : Type 0} (m : DisplayAction A) → Keeps m → Keeps (with_lock m)
unfolding with_lock
with_lock-Keeps {A} m h = record {
  apply = λ w p. go (m (ignore Event.lock w)) (h.apply (ignore Event.lock w) p);
}
  where
    go :
        (out : Result A DisplayError × World DisplayState)
        → Post (λ _. Fresh) (λ _. Fresh) out
        → Post (λ _. Fresh) (λ _. Fresh) (out.0, ignore Event.unlock out.1)
    go (success a, w) p = p
    go (failure e, w) p = p

call-Keeps :
    {A X : Type 0} (event : Event) (answer : Log → Result A X) (wrap : X → DisplayError)
    → Keeps (call event answer wrap)
call-Keeps event answer wrap = call-Ensures event answer wrap (λ a w p _. p) (λ x w p. p)

module _ (env : Environment) (config : DisplayConfig) (size_max : ℕ) where
  locked_body-Keeps :
      {A : Type 0} (m : DisplayAction A) → Keeps m → Keeps (locked_body env config size_max m)
  unfolding locked_body release
  locked_body-Keeps m h =
      >>=-Ensures (λ _. Fresh) (call-Keeps _ _ _)
        (λ frequency.
          >>=-Ensures (λ _. Fresh) (modify-Ensures _ (λ w p. p))
            (λ _.
              >>=-Ensures (λ _. Fresh) (call-Keeps _ _ _)
                (λ _.
                  >>=-Ensures (λ _. Fresh) (emit-Ensures _ (λ w p. p))
                    (λ _.
                      >>=-Ensures (λ _. Fresh) (on_error-Ensures _ (λ _. Fresh) h (λ e w p. p))
                        (λ value.
                          >>=-Ensures (λ _. Fresh)
                            (on_error-Ensures _ (λ _. Fresh) (call-Keeps _ _ _) (λ e w p. p))
                            (λ _.
                              >>=-Ensures (λ _. Fresh) (emit-Ensures _ (λ w p. p))
                                (λ _.
                                  >>=-Ensures (λ _. Fresh) (call-Keeps _ _ _)
                                    (λ _. pure-Ensures _ value (λ w p. p)))))))))

  transaction-Keeps :
      {A : Type 0} (m : DisplayAction A) → Keeps m → Keeps (transaction env config size_max m)
  unfolding transaction
  transaction-Keeps m h =
      if-Ensures (not (config_valid config)) (λ _. fail-Ensures _ (λ w p. p))
        (λ _. with_lock-Keeps _ (locked_body-Keeps m h))

  write_command_active-Keeps :
      (selected : Command) (bytes : List ℕ)
      → Keeps (write_command_active env config size_max selected bytes)
  unfolding write_command_active
  write_command_active-Keeps selected bytes =
      >>=-Ensures (λ _. Fresh) (call-Keeps _ _ _)
        (λ _.
          >>=-Ensures (λ _. Fresh) (call-Keeps _ _ _)
            (λ _.
              if-Ensures (length bytes == 0) (λ _. pure-Ensures _ tt (λ w p. p))
                (λ _. >>=-Ensures (λ _. Fresh) (call-Keeps _ _ _) (λ _. call-Keeps _ _ _))))

  send_command-Keeps :
      (selected : Command) (bytes : List ℕ)
      → Keeps (send_command env config size_max selected bytes)
  unfolding send_command
  send_command-Keeps selected bytes =
      transaction-Keeps _ (write_command_active-Keeps selected bytes)

  command_then :
      {A : Type 0} {R : A → World DisplayState → Type 0} {rest : DisplayAction A}
      (selected : Command) (bytes : List ℕ)
      → Ensures Fresh rest R (λ _. Fresh)
      → Ensures Fresh (send_command env config size_max selected bytes >>= λ _. rest) R (λ _. Fresh)
  command_then selected bytes h =
      >>=-Ensures (λ _. Fresh) (send_command-Keeps selected bytes) (λ _. h)

  send_settings-Keeps : Keeps (send_settings env config size_max)
  unfolding send_settings
  send_settings-Keeps = command_then _ _ (
      command_then _ _ (
        command_then _ _ (
          command_then _ _ (
            command_then _ _ (
              command_then _ _ (
                command_then _ _ (
                  command_then _ _ (
                    command_then _ _ (
                      command_then _ _ (
                        command_then _ _ (
                          command_then _ _ (
                            command_then _ _ (
                              command_then _ _
                                (command_then _ _ (send_command-Keeps _ _)))))))))))))))

  set_window_and_madctl-Keeps : Keeps (set_window_and_madctl env config size_max)
  unfolding set_window_and_madctl write_window_active
  set_window_and_madctl-Keeps = transaction-Keeps _ (
      >>=-Ensures (λ _. Fresh)
        (>>=-Ensures (λ _. Fresh) (write_command_active-Keeps _ _)
          (λ _. write_command_active-Keeps _ _))
        (λ _. write_command_active-Keeps _ _))

  reset_then :
      {R : Unit → World DisplayState → Type 0} {rest : DisplayAction Unit} (selected : Command)
      (event : Event)
      → Ensures Fresh rest R (λ _. Fresh)
      → Ensures Fresh
          (send_command env config size_max selected [] >>= λ _. emit event >>= λ _. rest)
          R
          (λ _. Fresh)
  reset_then selected event h =
      command_then selected [] (>>=-Ensures (λ _. Fresh) (emit-Ensures event (λ w p. p)) (λ _. h))

  initialize-sets :
      Ensures Fresh
        (initialize env config size_max)
        (λ _ w. w.driver.initialized ≡ true)
        (λ _. Fresh)
  unfolding initialize
  initialize-sets =
      if-Ensures (not (config_valid config)) (λ _. fail-Ensures _ (λ w p. p))
        (λ _. reset_then _ _ (
          reset_then _ _ (
            reset_then _ _ (
              >>=-Ensures (λ _. Fresh) send_settings-Keeps
                (λ _.
                  >>=-Ensures (λ _. Fresh) set_window_and_madctl-Keeps
                    (λ _. modify-Ensures _ (λ w p. refl)))))))

  module _ (x y width height color : ℕ) (pixels : Span ℕ) where
    abbrev pub AllRefuse : World DisplayState → Type 0
    AllRefuse w =
        Refuses (read_id env config size_max) w
        × Refuses (display_on env config size_max) w
        × Refuses (display_off env config size_max) w
        × Refuses (set_address_window env config size_max x y width height) w
        × Refuses (write_pixels env config size_max pixels) w
        × Refuses (write_rect env config size_max x y width height pixels) w
        × Refuses (fill_rect env config size_max x y width height color) w
        × Refuses (draw_pixel env config size_max x y color) w

    -- what an `initialize` that comes back with this has decided
    abbrev pub Decided : Result Unit DisplayError × World DisplayState → Type 0
    Decided (success _, w) = w.driver.initialized ≡ true
    Decided (failure e, w) = (w.driver.initialized ≡ false) × AllRefuse w

    not_initialized-refuses : (w : World DisplayState) → Fresh w → AllRefuse w
    unfolding if_initialized read_id display_on display_off set_address_window write_pixels
        write_rect fill_rect draw_pixel fail get_state ◌>>=◌
    not_initialized-refuses w h = rw h (refl, refl, refl, refl, refl, refl, refl, refl)

    -- On a display that is not initialized, an `initialize` that succeeds has set the field, and one
    -- that fails, at whatever call, has not: after it each of the eight other operations refuses
    -- with its own error, sends nothing and leaves the object as it is.
    pub initialize_decides :
        (w : World DisplayState)
        → w.driver.initialized ≡ false
        → Decided (initialize env config size_max w)
    initialize_decides w h = go (initialize env config size_max w) (initialize-sets.apply w h)
      where
        go :
            (out : Result Unit DisplayError × World DisplayState)
            → Post (λ _ v. v.driver.initialized ≡ true) (λ _. Fresh) out
            → Decided out
        go (success _, v) p = p
        go (failure e, v) p = (p, not_initialized-refuses v p)
