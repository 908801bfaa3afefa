-- ===== src/Adapters/Average/Block.antt =====
-- A block average answers once for each block of samples, with the average of that block.
use native.Mathlib.Nat.{mod-eq_of_lt}
use ecu_drivers.Prelude.{
  ℕ, ◌+◌, ◌*◌, ◌^◌, ◌≤◌, ◌<◌, ◌≡◌, ap, ==_iff, Option, none, some, List, [], ◌∷◌, arith, length,
}
use ecu_drivers.Adapters.Average.{Sample, BlockAverage, push_block, reset_block}

abbrev pub total : List (Sample ℕ) → ℕ
total [] = 0
total (x ∷ xs) = x.value + total xs

-- the samples are what the converter can deliver
abbrev pub Are32Bit : List (Sample ℕ) → Type 0
Are32Bit [] = Unit
Are32Bit (x ∷ xs) = (x.value < 2 ^ 32) × Are32Bit xs

module _ {R : Type 0} (samples : ℕ) (to_result : ℕ → R) where
  -- the answers to a run of samples, latest last, and the object behind them
  abbrev pub push_all : BlockAverage → List (Sample ℕ) → List (Option (Sample R)) × BlockAverage
  push_all s [] = ([], s)
  push_all s (x ∷ xs) =
      let (out, s') = push_block samples to_result s x in
      let (outs, s'') = push_all s' xs in (out ∷ outs, s'')

  -- the answers to the rest of a block whose samples so far add up to `sum`
  abbrev pub block_answers : ℕ → List (Sample ℕ) → List (Option (Sample R))
  block_answers sum [] = []
  block_answers sum (x ∷ []) =
      some (record {
        value = to_result (sum + x.value);
        captured_at = x.captured_at;
        sequence = x.sequence;
      })
      ∷ []
  block_answers sum (x ∷ y ∷ rest) = none ∷ block_answers (sum + x.value) (y ∷ rest)

  last_sample :
      (s : BlockAverage) (x : Sample ℕ)
      → s.sum + x.value < 2 ^ 64
      → s.count + 1 ≡ samples
      → push_block samples to_result s x ≡ (
        some (record {
          value = to_result (s.sum + x.value);
          captured_at = x.captured_at;
          sequence = x.sequence;
        }),
        reset_block,
      )
  unfolding push_block
  last_sample s x fits e = rw ((==_iff (s.count + 1) samples).1 e, mod-eq_of_lt fits)

  earlier_sample :
      (s : BlockAverage) (x : Sample ℕ)
      → s.sum + x.value < 2 ^ 64
      → s.count + 1 < samples
      → push_block samples to_result s x
        ≡ (none, record { sum = s.sum + x.value; count = s.count + 1 })
  unfolding push_block
  earlier_sample s x fits h = ground (arith, mod-eq_of_lt fits)

  -- From an object that has `count` samples of the block, the samples that complete it give no
  -- answer but at the last, which has the average of the whole block and the time and number
  -- of its last sample; then the object is as after a reset. No 64-bit sum wraps.
  pub push_all-block :
      (s : BlockAverage) (x : Sample ℕ) (xs : List (Sample ℕ))
      → Are32Bit (x ∷ xs)
      → samples < 2 ^ 32
      → s.sum ≤ s.count * 2 ^ 32
      → s.count + length (x ∷ xs) ≡ samples
      → push_all s (x ∷ xs) ≡ (block_answers s.sum (x ∷ xs), reset_block)
  push_all-block s x [] words small below e = rw (last_sample s x (omega arith) (omega arith))
  push_all-block s x (y ∷ rest) words small below e =
      rw (earlier_sample s x (omega arith) (omega arith)) (
        ap (λ p. (none ∷ p.0, p.1))
          (push_all-block (record { sum = s.sum + x.value; count = s.count + 1 }) y rest words.1
            small (omega arith) (omega arith)))
