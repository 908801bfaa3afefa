-- ===== src/Nv/Journal/Layout/Sizes.antt =====
-- What the compile-time arithmetic promises: the I/O unit is a common multiple of the read and the
-- program size, and every header, commit and record is a whole number of units.
use Prim.Native.Nat.{◌∣◌}
use native.Mathlib.Nat.{
  dvd-zero, dvd_refl, dvd-mod_iff, dvd-mul_left, dvd-mul_right, dvd-add, div-mul_cancel,
  mul-div_cancel', mul_assoc, mul-mod_left, div-add-mod', dvd_iff_mod-eq-zero, mod-lt, mod-eq_of_lt,
}
use ecu_drivers.Prelude.{
  ℕ, zero, suc, ◌+◌, ◌-◌, ◌*◌, ◌/◌, ◌%◌, ◌≤◌, ◌<◌, ◌≡◌, ◌^◌, inl, inr, ap, sym, subst, ◌∙◌, arith,
  Bool-cases, ◌==◌,
}
use ecu_drivers.Foundation.Word.{u64, sub_size}
use ecu_drivers.Nv.Journal.Layout.{
  Config, IsConfig, gcd_loop, journal_gcd, journal_lcm, align_up_word, journal_align_up,
  safe_read_size, safe_program_size, io_unit, region_header_size, record_header_size, commit_size,
  record_size,
}

gcd_loop-divides : (fuel l r : ℕ) → r < fuel → (gcd_loop fuel l r ∣ l) × (gcd_loop fuel l r ∣ r)
unfolding gcd_loop
gcd_loop-divides zero l r h = absurd (omega arith)
gcd_loop-divides (suc fuel) l r h = elim (Bool-cases (r == 0)) [
  | inl done ↦ rw done (dvd_refl l, subst (λ (t : ℕ). l ∣ t) (ground arith) (dvd-zero l))
  | inr more ↦ rw more (
      let (divides_r, divides_rest) = gcd_loop-divides fuel r (l % r) (ground arith) in
      ((dvd-mod_iff (gcd_loop fuel r (l % r)) divides_r).0 divides_rest, divides_r))
]

journal_gcd-divides : (l r : ℕ) → (journal_gcd l r ∣ l) × (journal_gcd l r ∣ r)
unfolding journal_gcd
journal_gcd-divides l r = gcd_loop-divides (suc r) l r (omega arith)

module _ (l r g : ℕ) (divides_l : g ∣ l) (divides_r : g ∣ r) where
  regroup : l / g * r ≡ l * (r / g)
  regroup =
      ap (λ (t : ℕ). l / g * t) (sym (mul-div_cancel' g divides_r))
      ∙ sym (mul_assoc (l / g) g (r / g))
      ∙ ap (λ (t : ℕ). t * (r / g)) (div-mul_cancel g divides_l)

  common_multiple : (l ∣ l / g * r) × (r ∣ l / g * r)
  common_multiple =
      (subst (λ (t : ℕ). l ∣ t) (sym regroup) (dvd-mul_right l (r / g)), dvd-mul_left r (l / g))

  common_multiple_pos : 0 < l → 0 < r → 0 < l / g * r
  common_multiple_pos hl hr = grind (arith, div-mul_cancel g divides_l)

journal_lcm-multiple : (l r : ℕ) → (l ∣ journal_lcm l r) × (r ∣ journal_lcm l r)
unfolding journal_lcm
journal_lcm-multiple l r =
    let (divides_l, divides_r) = journal_gcd-divides l r in
    common_multiple l r (journal_gcd l r) divides_l divides_r

journal_lcm-pos : (l r : ℕ) → 0 < l → 0 < r → 0 < journal_lcm l r
unfolding journal_lcm
journal_lcm-pos l r hl hr =
    let (divides_l, divides_r) = journal_gcd-divides l r in
    common_multiple_pos l r (journal_gcd l r) divides_l divides_r hl hr

-- on plain numbers, the least multiple of the unit that is not below the value
pub journal_align_up_lem :
    (value unit : ℕ)
    → 0 < unit
    → (value ≤ journal_align_up value unit)
      × (journal_align_up value unit < value + unit)
      × (journal_align_up value unit % unit ≡ 0)
unfolding journal_align_up
journal_align_up_lem value unit h = (
  omega (arith, whole, rest),
  omega (arith, whole, rest),
  mul-mod_left ((value + unit - 1) / unit) unit,
)
  where
    whole : (value + unit - 1) / unit * unit + (value + unit - 1) % unit ≡ value + unit - 1
    whole = div-add-mod' (value + unit - 1) unit

    rest : (value + unit - 1) % unit < unit
    rest = mod-lt (value + unit - 1) h

-- For a positive unit, and a value whose sum with the unit is at most 2 ^ 64, rounding up on machine words gives
-- the least multiple of the unit that is not below the value, and it is what rounding up on plain numbers gives.
pub align_up_word_lem :
    (value unit : ℕ)
    → 0 < unit
    → value + unit ≤ 2 ^ 64
    → (value ≤ align_up_word value unit)
      × (align_up_word value unit < value + unit)
      × (align_up_word value unit % unit ≡ 0)
      × (align_up_word value unit ≡ journal_align_up value unit)
unfolding align_up_word journal_align_up
align_up_word_lem value unit h small = (
  omega (arith, same, plain),
  omega (arith, same, plain),
  ap (λ (t : ℕ). t % unit) same ∙ plain.2,
  same,
)
  where
    plain :
        (value ≤ journal_align_up value unit)
        × (journal_align_up value unit < value + unit)
        × (journal_align_up value unit % unit ≡ 0)
    plain = journal_align_up_lem value unit h

    top : sub_size (u64 (value + unit)) 1 ≡ value + unit - 1
    top = omega (arith, small, h)

    fits : journal_align_up value unit < 2 ^ 64
    fits = omega (arith, plain, small)

    same : align_up_word value unit ≡ journal_align_up value unit
    same = ap (λ (t : ℕ). u64 (t / unit * unit)) top ∙ mod-eq_of_lt fits

align_multiple : (value unit : ℕ) → journal_align_up value unit % unit ≡ 0
unfolding journal_align_up
align_multiple value unit = mul-mod_left ((value + unit - 1) / unit) unit

sum_multiple : (a b unit : ℕ) → a % unit ≡ 0 → b % unit ≡ 0 → (a + b) % unit ≡ 0
sum_multiple a b unit ha hb =
    (dvd_iff_mod-eq-zero unit).0
      (dvd-add unit ((dvd_iff_mod-eq-zero unit).1 ha) ((dvd_iff_mod-eq-zero unit).1 hb))

-- The layout of a configuration that passes the static assertions.
module _ {c : Config} (ok : IsConfig c) where
  safe_read_size_lem : safe_read_size c ≡ c.geometry.read_size
  unfolding safe_read_size
  safe_read_size_lem = ground (arith, ok.read_pos)

  safe_program_size_lem : safe_program_size c ≡ c.geometry.program_size
  unfolding safe_program_size
  safe_program_size_lem = ground (arith, ok.program_pos)

  -- The I/O unit is positive, and a multiple of the flash's read size and of its program size, so
  -- an access of whole units at a multiple of the unit is aligned for both.
  pub io_unit_lem :
      (0 < io_unit c)
      × (io_unit c % c.geometry.read_size ≡ 0)
      × (io_unit c % c.geometry.program_size ≡ 0)
  unfolding io_unit
  io_unit_lem =
      rw (safe_read_size_lem, safe_program_size_lem)
        (
          journal_lcm-pos c.geometry.read_size c.geometry.program_size ok.read_pos ok.program_pos,
          (dvd_iff_mod-eq-zero c.geometry.read_size).0 multiple.0,
          (dvd_iff_mod-eq-zero c.geometry.program_size).0 multiple.1,
        )
    where
      multiple :
          (c.geometry.read_size ∣ journal_lcm c.geometry.read_size c.geometry.program_size)
          × (c.geometry.program_size ∣ journal_lcm c.geometry.read_size c.geometry.program_size)
      multiple = journal_lcm-multiple c.geometry.read_size c.geometry.program_size

  io_unit-pos : 0 < io_unit c
  io_unit-pos = io_unit_lem.0

  pub headers_fit : (36 ≤ region_header_size c) × (40 ≤ record_header_size c) × (16 ≤ commit_size c)
  unfolding region_header_size record_header_size commit_size
  headers_fit = (
    (journal_align_up_lem 36 (io_unit c) io_unit-pos).0,
    (journal_align_up_lem 40 (io_unit c) io_unit-pos).0,
    (journal_align_up_lem 16 (io_unit c) io_unit-pos).0,
  )

  -- every header, commit and record is a whole number of I/O units
  pub whole_units :
      (n : ℕ)
      → (region_header_size c % io_unit c ≡ 0)
        × (record_header_size c % io_unit c ≡ 0)
        × (commit_size c % io_unit c ≡ 0)
        × (record_size c n % io_unit c ≡ 0)
  unfolding region_header_size record_header_size commit_size record_size
  whole_units n = (
    align_multiple 36 (io_unit c),
    align_multiple 40 (io_unit c),
    align_multiple 16 (io_unit c),
    sum_multiple (journal_align_up 40 (io_unit c) + journal_align_up n (io_unit c))
        (journal_align_up 16 (io_unit c)) (io_unit c)
        (sum_multiple (journal_align_up 40 (io_unit c)) (journal_align_up n (io_unit c)) (io_unit c)
          (align_multiple 40 (io_unit c)) (align_multiple n (io_unit c)))
        (align_multiple 16 (io_unit c)),
  )

  -- a payload fits its record
  pub record_size-ge : (n : ℕ) → record_header_size c + n + commit_size c ≤ record_size c n
  unfolding record_size
  record_size-ge n = omega (arith, journal_align_up_lem n (io_unit c) io_unit-pos)

  pub logical-le-capacity : c.logical_capacity ≤ c.geometry.capacity
  logical-le-capacity = omega (arith, record_size-ge c.logical_capacity, ok.room, ok.regions_inside)
