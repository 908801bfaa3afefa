-- ===== src/Can/Tests.antt =====
-- Concrete CAN frames.
use ecu_drivers.Prelude.{ℕ, ◌≤◌, ◌≡◌, refl, arith, Bool, true, [], ◌∷◌, replicate, store}
use ecu_drivers.Foundation.Result.{success}
use ecu_drivers.Foundation.Span.{Span}
use ecu_drivers.Prelude.Bits.{digit, masked_same}
use ecu_drivers.Can.Filters.{matches_agrees, matches_accepts}
use ecu_drivers.Can.{
  CanId, Filter, id_valid, filter_valid, matches, FdFrame, make_classic, make_fd, dlc,
}
use ecu_drivers.Can.Frames.{
  ClassicOutcome, length_of_code, make_classic_lem, dlc_lem, FdOutcome, make_fd_lem,
}

abbrev standard_id : CanId
standard_id = record { value = 0x123; extended = Bool.false }

abbrev three_bytes : Span ℕ
three_bytes = Span.view (1 ∷ 2 ∷ 3 ∷ [])

make_classic_lem_example :
    ClassicOutcome standard_id three_bytes (make_classic standard_id three_bytes)
make_classic_lem_example = make_classic_lem standard_id three_bytes

abbrev twelve_bytes : Span ℕ
twelve_bytes = Span.view (replicate 12 7)

abbrev fd_frame : FdFrame
fd_frame = record {
  frame_id = standard_id;
  bit_rate_switch = Bool.true;
  error_state_indicator = Bool.false;
  size = 12;
  bytes = store (replicate 64 0) 0 (replicate 12 7);
}

fd_frame-made : make_fd standard_id twelve_bytes Bool.true Bool.false ≡ success fd_frame
unfolding make_fd
fd_frame-made = refl

dlc_lem_example : (dlc fd_frame ≤ 15) × (length_of_code (dlc fd_frame) ≡ 12)
dlc_lem_example = dlc_lem standard_id twelve_bytes Bool.true Bool.false fd_frame fd_frame-made

make_fd_lem_example :
    FdOutcome standard_id twelve_bytes Bool.true Bool.false
      (make_fd standard_id twelve_bytes Bool.true Bool.false)
make_fd_lem_example = make_fd_lem standard_id twelve_bytes Bool.true Bool.false

-- everything from 0x120 to 0x127
abbrev eight_ids : Filter
eight_ids = record { frame_id = standard_id; mask = 0x7F8 }

abbrev neighbour : CanId
neighbour = record { value = 0x125; extended = Bool.false }

matched : matches eight_ids neighbour ≡ true
unfolding matches filter_valid
matched = refl

matches_agrees_example :
    (id_valid neighbour ≡ true)
    × (neighbour.extended ≡ standard_id.extended)
    × (digit 5 neighbour.value ≡ digit 5 standard_id.value)
unfolding digit
matches_agrees_example = matches_agrees eight_ids neighbour 5 matched refl

matches_accepts_example : matches eight_ids neighbour ≡ true
unfolding filter_valid
matches_accepts_example =
    matches_accepts eight_ids neighbour refl refl refl (omega arith)
      (λ i set. masked_same i 0x125 0x123 0x7F8 refl set)
