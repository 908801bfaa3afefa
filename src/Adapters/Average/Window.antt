-- ===== src/Adapters/Average/Window.antt =====
-- A moving average keeps the last samples: its ring, read from the slot that is overwritten next, is
-- the window, a new sample pushes the oldest out, and the running sum is the sum of the window.
use native.Mathlib.Nat.{mod-eq_of_lt, mod_self}
use native.Mathlib.Numerals.{add-one}
use native.Mathlib.Decide.{dec_lt}
use mathlib.Core.List.{append_assoc, append-nil}
use ecu_drivers.Prelude.{
  ℕ, zero, suc, ◌+◌, ◌*◌, ◌-◌, ◌%◌, ◌^◌, ◌≤◌, ◌<◌, ◌≡◌, refl, ◌∙◌, ap, sym, Option, none, some,
  List, [], ◌∷◌, ◌++◌, ◌==◌, ltb, Bool-cases, inl, inr, arith, length, get_or, get_or-set_ne, set,
  if◌then◌else◌, Bool, true, false, not, ltb→lt, take, drop, length-set,
}
use ecu_drivers.Foundation.Word.{u64}
use ecu_drivers.Adapters.Average.{Sample, MovingAverage, push_moving}

abbrev pub total : List ℕ → ℕ
total [] = 0
total (x ∷ xs) = x + total xs

-- the samples that the sum is about, oldest first
abbrev pub window : MovingAverage → List ℕ
window s = drop s.next s.values ++ take s.next s.values

total-append : (xs ys : List ℕ) → total (xs ++ ys) ≡ total xs + total ys
total-append [] ys = omega arith
total-append (x ∷ xs) ys = omega (arith, total-append xs ys)

-- the slot at `i` and what stands behind it
drop-cons : (xs : List ℕ) (i : ℕ) → i < length xs → drop i xs ≡ get_or xs i 0 ∷ drop (suc i) xs
drop-cons [] i h = absurd (omega arith)
drop-cons (x ∷ xs) zero h = refl
drop-cons (x ∷ xs) (suc i) h = drop-cons xs i (omega arith)

drop-set : (xs : List ℕ) (i v : ℕ) → drop (suc i) (set xs i v) ≡ drop (suc i) xs
drop-set [] i v = refl
drop-set (x ∷ xs) zero v = refl
drop-set (x ∷ xs) (suc i) v = drop-set xs i v

take-set :
    (xs : List ℕ) (i v : ℕ) → i < length xs → take (suc i) (set xs i v) ≡ take i xs ++ (v ∷ [])
take-set [] i v h = absurd (omega arith)
take-set (x ∷ xs) zero v h = refl
take-set (x ∷ xs) (suc i) v h = ap (λ r. x ∷ r) (take-set xs i v (omega arith))

take-all : (xs : List ℕ) → take (length xs) xs ≡ xs
take-all [] = refl
take-all (x ∷ xs) = ap (λ r. x ∷ r) (take-all xs)

drop-all : (xs : List ℕ) → drop (length xs) xs ≡ []
drop-all [] = refl
drop-all (x ∷ xs) = drop-all xs

-- the values of the ring fit 32 bits
abbrev pub Are32Bit : List ℕ → Type 0
Are32Bit [] = Unit
Are32Bit (x ∷ xs) = (x < 2 ^ 32) × Are32Bit xs

set-Are32Bit : (xs : List ℕ) (i v : ℕ) → v < 2 ^ 32 → Are32Bit xs → Are32Bit (set xs i v)
set-Are32Bit [] i v h w = tt
set-Are32Bit (x ∷ xs) zero v h w = (h, w.1)
set-Are32Bit (x ∷ xs) (suc i) v h w = (w.0, set-Are32Bit xs i v h w.1)

total-le : (xs : List ℕ) → Are32Bit xs → total xs ≤ length xs * 2 ^ 32
total-le [] w = omega arith
total-le (x ∷ xs) w = omega (arith, total-le xs w.1)

total-take-drop : (n : ℕ) (xs : List ℕ) → total (take n xs) + total (drop n xs) ≡ total xs
total-take-drop zero xs = omega arith
total-take-drop (suc n) [] = omega arith
total-take-drop (suc n) (x ∷ xs) = omega (arith, total-take-drop n xs)

-- The ring, the count and the running sum belong together. While the window fills, the slots that
-- have not been written are zero.
pub record IsRing (samples : ℕ) (s : MovingAverage) : Type 0 where
  pub full_length : length s.values ≡ samples
  pub next_inside : s.next < samples
  pub count_le : s.count ≤ samples
  pub words : Are32Bit s.values
  pub sum_is : s.sum ≡ total s.values
  pub fill_point : s.count < samples → s.next ≡ s.count
  pub unwritten : (j : ℕ) → s.count < samples → s.count ≤ j → get_or s.values j 0 ≡ 0

total-set :
    (xs : List ℕ) (i v : ℕ) → i < length xs → total (set xs i v) + get_or xs i 0 ≡ total xs + v
total-set [] i v h = absurd (omega arith)
total-set (x ∷ xs) zero v h = omega arith
total-set (x ∷ xs) (suc i) v h = omega (arith, total-set xs i v (omega arith))

window-set :
    (samples : ℕ) (xs : List ℕ) (i v : ℕ)
    → length xs ≡ samples
    → i < samples
    → let j = (i + 1) % samples in
      drop j (set xs i v) ++ take j (set xs i v) ≡ drop 1 (drop i xs ++ take i xs) ++ (v ∷ [])
window-set samples xs i v e h = elim (dec_lt (i + 1) samples) [
  | yes inner ↦
      rw
        (
          mod-eq_of_lt inner,
          add-one,
          drop-set xs i v,
          take-set xs i v (omega arith),
          drop-cons xs i (omega arith),
        )
        (sym (append_assoc (drop (suc i) xs) (take i xs) (v ∷ [])))
  | no last ↦
      rw (wraps last, append-nil, whole last, drop-cons xs i (omega arith), nothing_behind last)
]
  where
    wraps : ¬ (i + 1 < samples) → (i + 1) % samples ≡ 0
    wraps last =
        ap (λ (n : ℕ). n % samples) (let at_end : i + 1 ≡ samples = omega arith in at_end)
        ∙ mod_self samples

    whole : ¬ (i + 1 < samples) → set xs i v ≡ take i xs ++ (v ∷ [])
    whole last =
        sym (take-all (set xs i v))
        ∙ ap (λ (n : ℕ). take n (set xs i v))
            (let at_end : length (set xs i v) ≡ suc i = omega (arith, length-set xs i v) in at_end)
        ∙ take-set xs i v (omega arith)

    nothing_behind : ¬ (i + 1 < samples) → drop (suc i) xs ≡ []
    nothing_behind last =
        ap (λ (n : ℕ). drop n xs) (let at_end : suc i ≡ length xs = omega arith in at_end)
        ∙ drop-all xs

module _ {samples : ℕ} {s : MovingAverage} (v : ℕ) (small : samples < 2 ^ 32) (word : v < 2 ^ 32)
    (ring : IsRing samples s) where
  abbrev written : List ℕ
  written = set s.values s.next v

  written_fits : total written < 2 ^ 64
  written_fits = omega (
    arith,
    total-le written (set-Are32Bit s.values s.next v word ring.words),
    length-set s.values s.next v,
    ring.full_length,
  )

  exchange : total written + get_or s.values s.next 0 ≡ s.sum + v
  exchange = omega (
    arith,
    total-set s.values s.next v (omega (arith, ring.full_length, ring.next_inside)),
    ring.sum_is,
  )

  oldest_inside : get_or s.values s.next 0 ≤ s.sum
  oldest_inside = omega (
    arith,
    total-set s.values s.next 0 (omega (arith, ring.full_length, ring.next_inside)),
    ring.sum_is,
  )

  filling_sum : s.count < samples → u64 (s.sum + v) ≡ total written
  filling_sum filling = omega (
    arith,
    exchange,
    written_fits,
    ring.unwritten s.next filling (omega (arith, ring.fill_point filling)),
  )

  full_sum : u64 (u64 (s.sum + 2 ^ 64 - get_or s.values s.next 0) + v) ≡ total written
  full_sum = omega (arith, exchange, written_fits, oldest_inside)

  abbrev pub new_count : ℕ
  new_count = if ltb s.count samples then s.count + 1 else s.count

  abbrev after : MovingAverage
  after = record {
    values = written;
    sum = total written;
    count = new_count;
    next = (s.next + 1) % samples;
  }

  after-IsRing : IsRing samples after
  after-IsRing = record {
    full_length = length-set s.values s.next v ∙ ring.full_length;
    next_inside = omega (arith, ring.next_inside);
    count_le = ground (arith, ring.count_le);
    words = set-Are32Bit s.values s.next v word ring.words;
    sum_is = refl;
    fill_point = λ h.
        let filling : s.count < samples = ground (arith, ring.count_le) in
        let counted : new_count ≡ s.count + 1 = ground arith in
        mod-eq_of_lt (omega (arith, ring.fill_point filling, counted))
        ∙ (let stepped : s.next + 1 ≡ new_count = omega (arith, ring.fill_point filling, counted) in
            stepped);
    unwritten = λ j h k.
        let filling : s.count < samples = ground (arith, ring.count_le) in
        let counted : new_count ≡ s.count + 1 = ground arith in
        get_or-set_ne s.values s.next j v 0 (omega (arith, ring.fill_point filling, counted))
        ∙ ring.unwritten j filling (omega (arith, counted));
  }

  after-window : window after ≡ drop 1 (window s) ++ (v ∷ [])
  after-window = window-set samples s.values s.next v ring.full_length ring.next_inside

  total-after : total (window after) ≡ total written
  total-after = omega (
    arith,
    total-append (drop after.next written) (take after.next written),
    total-take-drop after.next written,
  )

module _ {R : Type 0} (samples : ℕ) (to_result : ℕ → R) where
  abbrev answer : Sample ℕ → ℕ → ℕ → Option (Sample R)
  answer x count sum =
      if count == samples
      then some
          (record { value = to_result sum; captured_at = x.captured_at; sequence = x.sequence })
      else none

  split :
      (b : Bool) (o : Option (Sample R)) (n : Option (Sample R)) (m : MovingAverage)
      → ◌≡◌ {A = Option (Sample R) × MovingAverage}
          (if not b then (n, m) else (o, m))
          (if b then o else n, m)
  split true o n m = refl
  split false o n m = refl

  push_moving_lem :
      (s : MovingAverage) (x : Sample ℕ) (small : samples < 2 ^ 32) (word : x.value < 2 ^ 32)
      (ring : IsRing samples s)
      → push_moving samples to_result s x ≡ (
        answer x (new_count x.value small word ring) (total (written x.value small word ring)),
        after x.value small word ring,
      )
  unfolding push_moving
  push_moving_lem s x small word ring = elim (Bool-cases (ltb s.count samples)) [
    | inl filling ↦
        rw (filling, filling_sum x.value small word ring (ltb→lt s.count samples filling))
          (split (s.count + 1 == samples) _ _ _)
    | inr full ↦ rw (full, full_sum x.value small word ring) (split (s.count == samples) _ _ _)
  ]

  -- A pushed sample takes the place of the oldest one in the window, the invariant stands, and
  -- there is an answer exactly when the window is full: the result for the sum of its samples, with
  -- the time and number of the new one. No 64-bit sum wraps.
  pub push_moving-window :
      (s : MovingAverage) (x : Sample ℕ)
      → samples < 2 ^ 32
      → x.value < 2 ^ 32
      → IsRing samples s
      → let (out, s') = push_moving samples to_result s x in
        IsRing samples s'
        × (window s' ≡ drop 1 (window s) ++ (x.value ∷ []))
        × (out ≡ (
            if s'.count == samples
            then some (record {
              value = to_result (total (window s'));
              captured_at = x.captured_at;
              sequence = x.sequence;
            })
            else none))
  push_moving-window s x small word ring = rw (push_moving_lem s x small word ring) (
    after-IsRing x.value small word ring,
    after-window x.value small word ring,
    ap (answer x (new_count x.value small word ring)) (sym (total-after x.value small word ring)),
  )
