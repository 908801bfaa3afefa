-- ===== src/Can/Filters.antt =====
-- Acceptance filters: a filter matches an identifier by the bits of its mask.
use ecu_drivers.Prelude.{
  ℕ, ◌<◌, ◌^◌, ◌≡◌, refl, sym, Bool, true, false, ◌&&◌, ◌==◌, ==_self, bit_and, arith,
}
use ecu_drivers.Prelude.Bits.{digit, same_masked, masked_same}
use ecu_drivers.Can.{CanId, Filter, id_valid, filter_valid, same_format, matches}

and_both : (a b : Bool) → (a && b) ≡ true → (a ≡ true) × (b ≡ true)
and_both true b e = (refl, e)
and_both false b e = absurd (ground (arith, e))

format_same : (a b : Bool) → same_format a b ≡ true → a ≡ b
format_same true b e = sym e
format_same false true e = absurd (ground (arith, e))
format_same false false e = refl

same_format_self : (a : Bool) → same_format a a ≡ true
same_format_self true = refl
same_format_self false = refl

-- A valid filter matches every valid identifier of its format that agrees with the filter's own
-- identifier at each bit of the 32-bit mask.
pub matches_accepts :
    (f : Filter) (candidate : CanId)
    → filter_valid f ≡ true
    → id_valid candidate ≡ true
    → candidate.extended ≡ f.frame_id.extended
    → f.mask < 2 ^ 32
    → ((i : ℕ) → digit i f.mask ≡ 1 → digit i candidate.value ≡ digit i f.frame_id.value)
    → matches f candidate ≡ true
unfolding matches
matches_accepts f candidate good valid format word agree =
    rw
      (
        good,
        valid,
        format,
        same_format_self f.frame_id.extended,
        same_masked 32 candidate.value f.frame_id.value f.mask word agree,
      )
      (==_self (bit_and f.frame_id.value f.mask))

-- What a filter matches is valid, of the filter's format, and agrees with the filter's identifier at
-- any bit of the mask.
pub matches_agrees :
    (f : Filter) (candidate : CanId) (i : ℕ)
    → matches f candidate ≡ true
    → digit i f.mask ≡ 1
    → (id_valid candidate ≡ true)
      × (candidate.extended ≡ f.frame_id.extended)
      × (digit i candidate.value ≡ digit i f.frame_id.value)
unfolding matches
matches_agrees f candidate i e set =
    let formats : Bool = same_format candidate.extended f.frame_id.extended in
    let bits : Bool = bit_and candidate.value f.mask == bit_and f.frame_id.value f.mask in
    let (front, same_bits) = and_both (filter_valid f && id_valid candidate && formats) bits e in
    let (both, format) = and_both (filter_valid f && id_valid candidate) formats front in
    (
      (and_both (filter_valid f) (id_valid candidate) both).1,
      format_same candidate.extended f.frame_id.extended format,
      masked_same i candidate.value f.frame_id.value f.mask (ground (arith, same_bits)) set,
    )
