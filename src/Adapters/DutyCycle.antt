-- ===== src/Adapters/DutyCycle.antt =====
-- include/hal/adapters/pwm_duty_cycle.hpp: a duty cycle in permille as a pulse width. The output is a
-- template parameter: it is given the pulse width and answers.
use native.Mathlib.Nat.{mul-le-mul_left}
use ecu_drivers.Prelude.{
  ℕ, ◌+◌, ◌*◌, ◌/◌, ◌%◌, ◌^◌, ◌≤◌, ◌<◌, ◌≡◌, Bool, true, leb, leb→le, ap, arith,
}
use ecu_drivers.Foundation.Word.{u64}

pub record DutyCycle : Type 0 where
  pub permille : ℕ

abbrev pub valid : DutyCycle → Bool
valid duty = leb duty.permille 1000

-- the pulse width, on 64 bits
unfoldable pub pulse_width : ℕ → DutyCycle → ℕ
pulse_width period duty =
    let whole_periods = period / 1000 in
    let remainder = period % 1000 in
    u64 (u64 (whole_periods * duty.permille) + u64 (remainder * duty.permille + 1000 / 2) / 1000)

unfoldable pub set_duty_cycle : {S A : Type 0} → (ℕ → S → A × S) → ℕ → DutyCycle → S → A × S
set_duty_cycle set_pulse_width period duty = set_pulse_width (pulse_width period duty)

-- For a valid duty cycle the pulse is the exact fraction of the period, rounded to the nearest
-- nanosecond with halves up; no step wraps, the pulse is at most the period, and it is
-- nothing at 0 and the whole period at 1000.
pub pulse_width_lem :
    (period : ℕ) (duty : DutyCycle)
    → period < 2 ^ 64
    → valid duty ≡ true
    → (pulse_width period duty ≡ (period * duty.permille + 500) / 1000)
      × (pulse_width period duty ≤ period)
      × (pulse_width period (record { permille = 0 }) ≡ 0)
      × (pulse_width period (record { permille = 1000 }) ≡ period)
unfolding pulse_width
pulse_width_lem period duty h v = (
  omega (arith, parts, whole_small, rest_small),
  omega (arith, parts, whole_small, rest_small, part_le),
  omega arith,
  omega arith,
)
  where
    at_most : duty.permille ≤ 1000
    at_most = leb→le duty.permille 1000 v

    whole_small : period / 1000 * duty.permille ≤ period / 1000 * 1000
    whole_small = mul-le-mul_left (period / 1000) at_most

    rest_small : period % 1000 * duty.permille ≤ period % 1000 * 1000
    rest_small = mul-le-mul_left (period % 1000) at_most

    part_le : period % 1000 * duty.permille ≤ 999 * 1000
    part_le = omega (arith, rest_small)

    parts :
        period * duty.permille
        ≡ 1000 * (period / 1000 * duty.permille) + period % 1000 * duty.permille
    parts = omega (arith, ap (λ (t : ℕ). t * duty.permille) split)
      where
        split : period ≡ 1000 * (period / 1000) + period % 1000
        split = omega arith
