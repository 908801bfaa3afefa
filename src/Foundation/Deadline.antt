-- ===== src/Foundation/Deadline.antt =====
-- include/hal/foundation/deadline.hpp: an absolute deadline in nanoseconds since boot. Instants and
-- durations are the 64-bit counts of include/hal/foundation/units.hpp.
use ecu_drivers.Prelude.{
  ℕ, ◌+◌, ◌-◌, ◌≤◌, ◌<◌, ◌^◌, min, ◌≡◌, ◌↔◌, Bool, true, arith, ltb, leb, if◌then◌else◌,
}
use ecu_drivers.Foundation.Word.{u64_max, sub_size}

pub record Deadline : Type 0 where
  pub expires_at : ℕ

abbrev pub at_instant : ℕ → Deadline
at_instant value = record { expires_at = value }

pub after : ℕ → ℕ → Deadline
after now duration = record {
  expires_at = if ltb (u64_max - now) duration then u64_max else now + duration;
}

pub expired : Deadline → ℕ → Bool
expired d now = leb d.expires_at now

pub remaining : Deadline → ℕ → ℕ
unfolding expired
remaining d now = if expired d now then 0 else sub_size d.expires_at now

-- A deadline set `duration` after `now` is never beyond the clock's range, has exactly `duration`
-- left (or all the clock can still count, if that is less), and has expired at a later
-- instant exactly when that much time has passed.
pub after-remaining :
    (now duration later : ℕ)
    → now < 2 ^ 64
    → later < 2 ^ 64
    → ((after now duration).expires_at < 2 ^ 64)
      × (remaining (after now duration) now ≡ min duration (u64_max - now))
      × ((expired (after now duration) later ≡ true) ↔ (min (now + duration) u64_max ≤ later))
unfolding after remaining expired
after-remaining now duration later h k = ground arith

-- For an instant of expiry and a later instant on the clock, the time left falls with the clock: it
-- and the elapsed time make up what was left before, it is zero exactly when the deadline has
-- expired, and it is never more than the instant of expiry, however late the clock reads it.
pub remaining_elapses :
    (d : Deadline) (now step : ℕ)
    → d.expires_at < 2 ^ 64
    → now + step < 2 ^ 64
    → (remaining d (now + step) ≡ remaining d now - step)
      × ((remaining d now ≡ 0) ↔ (expired d now ≡ true))
      × (remaining d now ≤ d.expires_at)
unfolding remaining expired
remaining_elapses d now step h k = ground arith
