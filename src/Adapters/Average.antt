-- ===== src/Adapters/Average.antt =====
-- include/hal/adapters/adc_averaging.hpp: `BlockAverage` and `MovingAverage` over raw samples. The
-- number of samples and the conversion of a sum to a result are template parameters;
-- `to_uint32` is the integer conversion, and there are no floats here.
pub mod Block
pub mod Window
use ecu_drivers.Prelude.{
  ℕ, ◌+◌, ◌/◌, ◌%◌, ◌^◌, ◌-◌, Bool, Option, none, some, List, ltb, not, ◌==◌, get_or, set,
  replicate, if◌then◌else◌,
}
use ecu_drivers.Foundation.Word.{u32, u64}

pub record Sample (V : Type 0) : Type 0 where
  pub value : V
  pub captured_at : ℕ
  pub sequence : ℕ

-- `static_cast<std::uint32_t>((sum + (Samples / 2)) / Samples)`, on 64 bits
unfoldable pub to_uint32 : ℕ → ℕ → ℕ
to_uint32 samples sum = u32 (u64 (sum + samples / 2) / samples)

pub record BlockAverage : Type 0 where
  pub sum : ℕ
  pub count : ℕ

pub record MovingAverage : Type 0 where
  pub values : List ℕ
  pub sum : ℕ
  pub count : ℕ
  pub next : ℕ

module _ {R : Type 0} (samples : ℕ) (to_result : ℕ → R) where
  -- `available` is whether there is an output
  unfoldable pub push_block : BlockAverage → Sample ℕ → Option (Sample R) × BlockAverage
  push_block s input =
      let sum = u64 (s.sum + input.value) in
      let count = s.count + 1 in
      if not (count == samples) then (none, record { sum = sum; count = count }) else (
        some (record {
          value = to_result sum;
          captured_at = input.captured_at;
          sequence = input.sequence;
        }),
        record { sum = 0; count = 0 },
      )

  -- The subtraction is on 64 bits.
  unfoldable pub push_moving : MovingAverage → Sample ℕ → Option (Sample R) × MovingAverage
  push_moving s input =
      let values = set s.values s.next input.value in
      let filling = ltb s.count samples in
      let sum =
        if filling
        then u64 (s.sum + input.value)
        else u64 (u64 (s.sum + 2 ^ 64 - get_or s.values s.next 0) + input.value) in
      let count = if filling then s.count + 1 else s.count in
      let s' : MovingAverage = record {
        values = values;
        sum = sum;
        count = count;
        next = (s.next + 1) % samples;
      } in
      if not (count == samples) then (none, s') else (
        some (record {
          value = to_result sum;
          captured_at = input.captured_at;
          sequence = input.sequence;
        }),
        s',
      )

abbrev pub reset_block : BlockAverage
reset_block = record { sum = 0; count = 0 }

abbrev pub reset_moving : ℕ → MovingAverage
reset_moving samples = record { values = replicate samples 0; sum = 0; count = 0; next = 0 }
