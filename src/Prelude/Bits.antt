-- ===== src/Prelude/Bits.antt =====
-- Bit operations as arithmetic: a disjunction of disjoint fields is a sum, and an exclusive or
-- stays within the width of its operands.
use Prim.Native.Nat.{
  ℕ, zero, suc, ◌+◌, ◌*◌, ◌/◌, ◌%◌, ◌^◌, ◌≤◌, ◌<◌, bit_and, bit_or, bit_xor, min, max, differ,
  digits, bitwise, bit_and-bitwise, bit_or-bitwise, bit_xor-bitwise,
}
use mathlib.Core.Path.{◌≡◌, refl, sym, ap, ap₂, ◌∙◌}
use native.Mathlib.Decide.{dec_lt}
use native.Mathlib.Nat.{pow-suc}
use native.Mathlib.Omega.{arith}

-- Enough fuel for the first operand gives the value, whatever the surplus.
module _ (left : ℕ → ℕ) (digit : ℕ → ℕ → ℕ) where
  surplus : (n m a b : ℕ) → a ≤ n → a ≤ m → digits left digit n a b ≡ digits left digit m a b
  surplus zero zero a b h k = refl
  surplus zero (suc m) zero b h k = refl
  surplus (suc n) zero zero b h k = refl
  surplus (suc n) (suc m) zero b h k = refl
  surplus zero m (suc a) b h k = absurd (omega arith)
  surplus (suc n) zero (suc a) b h k = absurd (omega arith)
  surplus (suc n) (suc m) (suc a) b h k =
      rw (surplus n m (suc a / 2) (b / 2) (omega arith) (omega arith))

  last_digit :
      (a b : ℕ)
      → bitwise left digit (suc a) b
        ≡ bitwise left digit (suc a / 2) (b / 2) * 2 + digit (suc a % 2) (b % 2)
  last_digit a b =
      omega (arith, surplus a (suc a / 2) (suc a / 2) (b / 2) (omega arith) (omega arith))

pub bit_or_halves : (a b : ℕ) → bit_or a b ≡ bit_or (a / 2) (b / 2) * 2 + max (a % 2) (b % 2)
bit_or_halves zero b = simp bit_or-bitwise (omega arith)
bit_or_halves (suc a) b = simp bit_or-bitwise (last_digit (λ b. b) max a b)

pub bit_xor_halves : (a b : ℕ) → bit_xor a b ≡ bit_xor (a / 2) (b / 2) * 2 + differ (a % 2) (b % 2)
bit_xor_halves zero b = simp bit_xor-bitwise (omega arith)
bit_xor_halves (suc a) b = simp bit_xor-bitwise (last_digit (λ b. b) differ a b)

bit_or-zero_left : (k q : ℕ) → bit_or 0 (q * 2 ^ k) ≡ q * 2 ^ k
bit_or-zero_left k q = bit_or-bitwise 0 (q * 2 ^ k)

-- `r | (q << k)` is a sum when `r` has no bit at `k` or above.
pub bit_or_high : (k r q : ℕ) → r < 2 ^ k → bit_or r (q * 2 ^ k) ≡ r + q * 2 ^ k
bit_or_high zero r q h =
    omega (arith, bit_or-zero_left 0 q, ap (λ (t : ℕ). bit_or t (q * 2 ^ 0)) r_zero)
  where
    r_zero : r ≡ 0
    r_zero = omega arith
bit_or_high (suc k) r q h = omega (
  arith,
  bit_or_halves r (q * 2 ^ suc k),
  twice,
  ap (λ (t : ℕ). bit_or (r / 2) t) half,
  bit_or_high k (r / 2) q (omega (arith, pow-suc 2 k)),
)
  where
    twice : q * 2 ^ suc k ≡ 2 * (q * 2 ^ k)
    twice = omega (arith, ap (λ (t : ℕ). q * t) (pow-suc 2 k))

    half : q * 2 ^ suc k / 2 ≡ q * 2 ^ k
    half = omega (arith, twice)

differ-le-max : (x y : ℕ) → differ x y ≤ max x y
differ-le-max zero y = omega arith
differ-le-max (suc x) zero = omega arith
differ-le-max (suc x) (suc y) = omega (arith, differ-le-max x y)

bit_xor-zero : (b : ℕ) → bit_xor 0 b ≡ b
bit_xor-zero b = bit_xor-bitwise 0 b

pub bit_xor-lt : (k a b : ℕ) → a < 2 ^ k → b < 2 ^ k → bit_xor a b < 2 ^ k
bit_xor-lt zero a b h l = omega (arith, ap₂ bit_xor a_zero b_zero, bit_xor-zero 0)
  where
    a_zero : a ≡ 0
    a_zero = omega arith

    b_zero : b ≡ 0
    b_zero = omega arith
bit_xor-lt (suc k) a b h l = omega (
  arith,
  pow-suc 2 k,
  bit_xor_halves a b,
  differ-le-max (a % 2) (b % 2),
  bit_xor-lt k (a / 2) (b / 2) (omega (arith, pow-suc 2 k)) (omega (arith, pow-suc 2 k)),
)

bit_and_halves : (a b : ℕ) → bit_and a b ≡ bit_and (a / 2) (b / 2) * 2 + min (a % 2) (b % 2)
bit_and_halves zero b = simp bit_and-bitwise (omega arith)
bit_and_halves (suc a) b = simp bit_and-bitwise (last_digit (λ b. 0) min a b)

bit_and-zero : (b : ℕ) → bit_and 0 b ≡ 0
bit_and-zero b = bit_and-bitwise 0 b

and_le_fuel : (n a b : ℕ) → a ≤ n → bit_and a b ≤ b
and_le_fuel n zero b h = omega (arith, bit_and-zero b)
and_le_fuel zero (suc a) b h = absurd (omega arith)
and_le_fuel (suc n) (suc a) b h =
    omega (arith, bit_and_halves (suc a) b, and_le_fuel n (suc a / 2) (b / 2) (omega arith))

-- A mask bounds what it lets through.
pub bit_and-le_right : (a b : ℕ) → bit_and a b ≤ b
bit_and-le_right a b = and_le_fuel a a b (omega arith)

-- the bit of a number at a place
unfoldable pub digit : ℕ → ℕ → ℕ
digit zero x = x % 2
digit (suc i) x = digit i (x / 2)

-- Two numbers that agree wherever the mask has a bit are the same under the mask.
pub same_masked :
    (k a b m : ℕ)
    → m < 2 ^ k
    → ((i : ℕ) → digit i m ≡ 1 → digit i a ≡ digit i b)
    → bit_and a m ≡ bit_and b m
unfolding digit
same_masked zero a b m h agree = omega (arith, h, bit_and-le_right a m, bit_and-le_right b m)
same_masked (suc k) a b m h agree = elim (dec_lt 0 (m % 2)) [
  | yes set ↦ omega (
    arith,
    bit_and_halves a m,
    bit_and_halves b m,
    same_masked k (a / 2) (b / 2) (m / 2) (omega (arith, pow-suc 2 k)) (λ i. agree (suc i)),
    agree 0 (omega (arith, set)),
  )
  | no clear ↦ omega (
    arith,
    bit_and_halves a m,
    bit_and_halves b m,
    same_masked k (a / 2) (b / 2) (m / 2) (omega (arith, pow-suc 2 k)) (λ i. agree (suc i)),
  )
]

-- and the other way round
pub masked_same : (i a b m : ℕ) → bit_and a m ≡ bit_and b m → digit i m ≡ 1 → digit i a ≡ digit i b
unfolding digit
masked_same zero a b m e h = omega (arith, bit_and_halves a m, bit_and_halves b m, e, h)
masked_same (suc i) a b m e h =
    masked_same i (a / 2) (b / 2) (m / 2) (omega (arith, bit_and_halves a m, bit_and_halves b m, e))
      h

-- A number that a disjunction does not change has every bit of the other.
pub bit_or-digit : (i a b : ℕ) → bit_or a b ≡ a → digit i b ≤ digit i a
unfolding digit
bit_or-digit zero a b e = omega (arith, bit_or_halves a b, e)
bit_or-digit (suc i) a b e = bit_or-digit i (a / 2) (b / 2) (omega (arith, bit_or_halves a b, e))

differ-zero : (x : ℕ) → differ x 0 ≡ x
differ-zero zero = refl
differ-zero (suc x) = refl

differ_swap : (x y z : ℕ) → x < 2 → y < 2 → z < 2 → differ (differ x y) z ≡ differ (differ x z) y
differ_swap zero y z h k l = differ_comm y z k l
  where
    differ_comm : (y z : ℕ) → y < 2 → z < 2 → differ y z ≡ differ z y
    differ_comm zero zero k l = refl
    differ_comm zero (suc zero) k l = refl
    differ_comm (suc zero) zero k l = refl
    differ_comm (suc zero) (suc zero) k l = refl
    differ_comm y (suc (suc z)) k l = absurd (omega arith)
    differ_comm (suc (suc y)) z k l = absurd (omega arith)
differ_swap (suc zero) zero zero h k l = refl
differ_swap (suc zero) zero (suc zero) h k l = refl
differ_swap (suc zero) (suc zero) zero h k l = refl
differ_swap (suc zero) (suc zero) (suc zero) h k l = refl
differ_swap (suc zero) (suc (suc y)) z h k l = absurd (omega arith)
differ_swap (suc zero) y (suc (suc z)) h k l = absurd (omega arith)
differ_swap (suc (suc x)) y z h k l = absurd (omega arith)

-- halves and last digits of an exclusive or
pub bit_xor_parts :
    (a b : ℕ)
    → (bit_xor a b / 2 ≡ bit_xor (a / 2) (b / 2)) × (bit_xor a b % 2 ≡ differ (a % 2) (b % 2))
bit_xor_parts a b = (
  omega (arith, bit_xor_halves a b, differ-le-max (a % 2) (b % 2)),
  omega (arith, bit_xor_halves a b, differ-le-max (a % 2) (b % 2)),
)

xor_swap_fuel : (n a b c : ℕ) → a + b + c ≤ n → bit_xor (bit_xor a b) c ≡ bit_xor (bit_xor a c) b
xor_swap_fuel zero a b c h = rw (a_zero, b_zero, c_zero) refl
  where
    a_zero : a ≡ 0
    a_zero = omega arith

    b_zero : b ≡ 0
    b_zero = omega arith

    c_zero : c ≡ 0
    c_zero = omega arith
xor_swap_fuel (suc n) a b c h =
    bit_xor_halves (bit_xor a b) c
    ∙ ap₂ (λ (x y : ℕ). bit_xor x (c / 2) * 2 + differ y (c % 2)) (bit_xor_parts a b).0
        (bit_xor_parts a b).1
    ∙ ap₂ (λ (x y : ℕ). x * 2 + y) (xor_swap_fuel n (a / 2) (b / 2) (c / 2) (omega arith))
        (differ_swap (a % 2) (b % 2) (c % 2) (omega arith) (omega arith) (omega arith))
    ∙ sym (
        bit_xor_halves (bit_xor a c) b
        ∙ ap₂ (λ (x y : ℕ). bit_xor x (b / 2) * 2 + differ y (b % 2)) (bit_xor_parts a c).0
            (bit_xor_parts a c).1)

pub bit_xor_swap : (a b c : ℕ) → bit_xor (bit_xor a b) c ≡ bit_xor (bit_xor a c) b
bit_xor_swap a b c = xor_swap_fuel (a + b + c) a b c (omega arith)

xor_zero_fuel : (n a : ℕ) → a ≤ n → bit_xor a 0 ≡ a
xor_zero_fuel zero zero h = bit_xor-zero 0
xor_zero_fuel zero (suc a) h = absurd (omega arith)
xor_zero_fuel (suc n) a h =
    omega (arith, bit_xor_halves a 0, differ-zero (a % 2), xor_zero_fuel n (a / 2) (omega arith))

pub bit_xor-zero_right : (a : ℕ) → bit_xor a 0 ≡ a
bit_xor-zero_right a = xor_zero_fuel a a (omega arith)

pub bit_and-one : (a : ℕ) → bit_and a 1 ≡ a % 2
bit_and-one a = omega (arith, bit_and_halves a 1, bit_and-le_right (a / 2) 0)

differ_self : (x : ℕ) → differ x x ≡ 0
differ_self zero = refl
differ_self (suc x) = differ_self x

differ_ne : (x y : ℕ) → x < 2 → y < 2 → (x ≡ y → ⊥) → differ x y ≡ 1
differ_ne zero zero h k ne = absurd (ne refl)
differ_ne zero (suc zero) h k ne = refl
differ_ne (suc zero) zero h k ne = refl
differ_ne (suc zero) (suc zero) h k ne = absurd (ne refl)
differ_ne x (suc (suc y)) h k ne = absurd (omega arith)
differ_ne (suc (suc x)) y h k ne = absurd (omega arith)

-- An exclusive or is even exactly when the operands are both even or both odd.
pub bit_xor_even : (a b : ℕ) → a % 2 ≡ b % 2 → bit_xor a b % 2 ≡ 0
bit_xor_even a b e =
    (bit_xor_parts a b).1 ∙ ap (λ (t : ℕ). differ t (b % 2)) e ∙ differ_self (b % 2)

pub bit_xor_odd : (a b : ℕ) → (a % 2 ≡ b % 2 → ⊥) → bit_xor a b % 2 ≡ 1
bit_xor_odd a b ne =
    (bit_xor_parts a b).1 ∙ differ_ne (a % 2) (b % 2) (omega arith) (omega arith) ne
