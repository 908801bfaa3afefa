-- ===== src/Adapters/Tests.antt =====
-- Concrete runs of the averages, the duty cycle and the active-low pin.
use ecu_drivers.Prelude.{
  ℕ, ◌+◌, ◌*◌, ◌/◌, ◌≤◌, ◌≡◌, refl, none, some, [], ◌∷◌, ◌++◌, arith, drop, ◌==◌, if◌then◌else◌,
  Bool, true, false, not, sym, ap,
}
use ecu_drivers.Foundation.Result.{success, failure}
use ecu_drivers.Spi.Contract.{Level, PinErrorKind}
use ecu_drivers.Adapters.Average.{Sample, MovingAverage, push_moving, reset_block}
use ecu_drivers.Adapters.Average.Block.{push_all, block_answers, push_all-block}
use ecu_drivers.Adapters.Average.Window
use ecu_drivers.Adapters.Average.Window.{IsRing, window, push_moving-window}
use ecu_drivers.Adapters.DutyCycle.{DutyCycle, pulse_width, pulse_width_lem}
use ecu_drivers.Adapters.ActiveLow.{Edge, Pin, Reversed, active_low, active_low_lem, fires}

abbrev sample : ℕ → Sample ℕ
sample n = record { value = n; captured_at = n; sequence = n }

push_all-block_example :
    push_all 3 (λ (n : ℕ). n / 3) reset_block (sample 4 ∷ sample 5 ∷ sample 9 ∷ [])
    ≡ (block_answers 3 (λ (n : ℕ). n / 3) 0 (sample 4 ∷ sample 5 ∷ sample 9 ∷ []), reset_block)
push_all-block_example =
    push_all-block 3 (λ (n : ℕ). n / 3) reset_block (sample 4) (sample 5 ∷ sample 9 ∷ [])
      (omega arith, (omega arith, (omega arith, tt))) (omega arith) (omega arith) (omega arith)

-- a ring of two, full, whose older value is 7
abbrev full_ring : MovingAverage
full_ring = record { values = 5 ∷ 7 ∷ []; sum = 12; count = 2; next = 1 }

full_ring-IsRing : IsRing 2 full_ring
full_ring-IsRing = record {
  full_length = refl;
  next_inside = omega arith;
  count_le = omega arith;
  words = (omega arith, (omega arith, tt));
  sum_is = refl;
  fill_point = λ h. absurd (omega arith);
  unwritten = λ j h k. absurd (omega arith);
}

push_moving-window_example :
    let (out, s') = push_moving 2 (λ (n : ℕ). n / 2) full_ring (sample 9) in
    IsRing 2 s'
    × (window s' ≡ drop 1 (window full_ring) ++ (9 ∷ []))
    × (out ≡ (
        if s'.count == 2
        then some (record { value = Window.total (window s') / 2; captured_at = 9; sequence = 9 })
        else none))
push_moving-window_example =
    push_moving-window 2 (λ (n : ℕ). n / 2) full_ring (sample 9) (omega arith) (omega arith)
      full_ring-IsRing

abbrev a_third : DutyCycle
a_third = record { permille = 333 }

pulse_width_lem_example :
    (pulse_width 20000 a_third ≡ (20000 * a_third.permille + 500) / 1000)
    × (pulse_width 20000 a_third ≤ 20000)
    × (pulse_width 20000 (record { permille = 0 }) ≡ 0)
    × (pulse_width 20000 (record { permille = 1000 }) ≡ 20000)
pulse_width_lem_example = pulse_width_lem 20000 a_third (omega arith) refl

-- a pin whose state is the level that it is driven to
abbrev wire : Pin Level
wire = record {
  write = λ level s. (success tt, level);
  output_latch = λ s. (success s, s);
  read = λ s. (success s, s);
  configure_edge = λ e s. (failure PinErrorKind.unavailable, s);
  take_event = λ s. (Bool.false, s);
}

active_low_lem_example :
    (((active_low wire).output_latch Level.low).0 ≡ success Level.high)
    × Reversed (success Level.high) (wire.output_latch Level.low).0
    × Reversed (wire.read Level.low).0 ((active_low wire).read Level.low).0
    × ((other : Edge) × ((active_low wire).configure_edge Edge.rising Level.high
          ≡ wire.configure_edge other Level.high)
        × (fires other (not false) (not true) ≡ fires Edge.rising false true))
unfolding active_low
active_low_lem_example =
    active_low_lem wire (λ l s s' e. ap success (sym (ap (λ p. p.1) e))) Level.high Edge.rising
      false true Level.high Level.low refl
