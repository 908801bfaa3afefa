-- ===== src/Can.antt =====
-- include/hal/contracts/can.hpp: identifiers, validated frames and acceptance filters. What a polled
-- queue gives is an `Option` of a frame.
pub mod Frames
pub mod Filters
mod Tests
use ecu_drivers.Prelude.{
  ℕ, ◌-◌, Bool, ◌&&◌, ◌||◌, not, List, leb, ltb, ◌==◌, bit_and, bit_xor, replicate, store, take,
  if◌then◌else◌,
}
use ecu_drivers.Foundation.Result.{Result, success, failure}
use ecu_drivers.Foundation.Span
use ecu_drivers.Foundation.Span.{Span}

pub record CanId : Type 0 where
  pub value : ℕ
  pub extended : Bool

abbrev pub id_valid : CanId → Bool
id_valid i = if i.extended then leb i.value 0x1FFF_FFFF else leb i.value 0x7FF

pub data FrameValidationError : Type 0 where
  invalid_id invalid_length : FrameValidationError

-- `bytes` is the whole array of 8 or 64 bytes, of which the first `size` are the payload.
pub record ClassicFrame : Type 0 where
  pub frame_id : CanId
  pub size : ℕ
  pub bytes : List ℕ

unfoldable pub make_classic : CanId → Span ℕ → Result ClassicFrame FrameValidationError
make_classic frame_id payload =
    if not (id_valid frame_id)
    then failure FrameValidationError.invalid_id
    else if not (Span.valid payload) || ltb 8 (Span.size payload)
    then failure FrameValidationError.invalid_length
    else success (record {
      frame_id = frame_id;
      size = Span.size payload;
      bytes = store (replicate 8 0) 0 (Span.elements payload);
    })

-- `data()`
abbrev pub classic_data : ClassicFrame → List ℕ
classic_data frame = take frame.size frame.bytes

pub record FdFrame : Type 0 where
  pub frame_id : CanId
  pub bit_rate_switch : Bool
  pub error_state_indicator : Bool
  pub size : ℕ
  pub bytes : List ℕ

abbrev pub valid_payload_length : ℕ → Bool
valid_payload_length size =
    leb size 8
    || size == 12
    || size == 16
    || size == 20
    || size == 24
    || size == 32
    || size == 48
    || size == 64

unfoldable pub make_fd : CanId → Span ℕ → Bool → Bool → Result FdFrame FrameValidationError
make_fd frame_id payload bit_rate_switch error_state_indicator =
    if not (id_valid frame_id)
    then failure FrameValidationError.invalid_id
    else if not (Span.valid payload) || not (valid_payload_length (Span.size payload))
    then failure FrameValidationError.invalid_length
    else success (record {
      frame_id = frame_id;
      bit_rate_switch = bit_rate_switch;
      error_state_indicator = error_state_indicator;
      size = Span.size payload;
      bytes = store (replicate 64 0) 0 (Span.elements payload);
    })

abbrev pub fd_data : FdFrame → List ℕ
fd_data frame = take frame.size frame.bytes

unfoldable pub dlc : FdFrame → ℕ
dlc frame =
    if leb frame.size 8
    then frame.size
    else if frame.size == 12
    then 9
    else if frame.size == 16
    then 10
    else if frame.size == 20
    then 11
    else if frame.size == 24
    then 12
    else if frame.size == 32
    then 13
    else if frame.size == 48
    then 14
    else 15

pub record Filter : Type 0 where
  pub frame_id : CanId
  pub mask : ℕ

-- `(mask & ~width_mask) == 0`
unfoldable pub filter_valid : Filter → Bool
filter_valid f =
    let width_mask : ℕ = if f.frame_id.extended then 0x1FFF_FFFF else 0x7FF in
    id_valid f.frame_id && bit_and f.mask (bit_xor width_mask 0xFFFF_FFFF) == 0

abbrev pub same_format : Bool → Bool → Bool
same_format Bool.true b = b
same_format Bool.false b = not b

unfoldable pub matches : Filter → CanId → Bool
matches f candidate =
    filter_valid f
    && id_valid candidate
    && same_format candidate.extended f.frame_id.extended
    && bit_and candidate.value f.mask == bit_and f.frame_id.value f.mask
