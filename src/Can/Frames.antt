-- ===== src/Can/Frames.antt =====
-- Frames carry exactly what they were made of, and the length code of an FD frame tells the length.
use ecu_drivers.Prelude.{
  ℕ, ◌+◌, ◌≤◌, ◌<◌, ◌≡◌, refl, ap, ◌∙◌, Bool, true, false, List, ltb, leb, ◌==◌, arith, length,
  replicate, store, take, if◌then◌else◌, Bool-cases, inl, inr, ◌⊎◌, ltb→lt, take-store,
  length-replicate, length-store,
}
use ecu_drivers.Foundation.Result.{Result, success, failure}
use ecu_drivers.Foundation.Span
use ecu_drivers.Foundation.Span.{Span, length-elements}
use ecu_drivers.Can.{
  CanId, id_valid, FrameValidationError, ClassicFrame, make_classic, classic_data, FdFrame, make_fd,
  dlc, fd_data, valid_payload_length,
}

-- the data length code of ISO 11898-1, read as a length
abbrev pub length_of_code : ℕ → ℕ
length_of_code code =
    if leb code 8
    then code
    else if code == 9
    then 12
    else if code == 10
    then 16
    else if code == 11
    then 20
    else if code == 12
    then 24
    else if code == 13
    then 32
    else if code == 14
    then 48
    else 64

-- A made FD frame has a code of four bits, and that code stands for its payload's length.
pub dlc_lem :
    (i : CanId) (payload : Span ℕ) (brs esi : Bool) (frame : FdFrame)
    → make_fd i payload brs esi ≡ success frame
    → (dlc frame ≤ 15) × (length_of_code (dlc frame) ≡ Span.size payload)
unfolding make_fd dlc
dlc_lem i payload brs esi frame e = ground arith

-- What `make_classic` gives for an identifier and a payload.
abbrev pub ClassicOutcome : CanId → Span ℕ → Result ClassicFrame FrameValidationError → Type 0
ClassicOutcome i payload (success frame) =
    (id_valid i ≡ true)
    × (Span.size payload ≤ 8)
    × (frame.frame_id ≡ i)
    × (classic_data frame ≡ Span.elements payload)
    × (length frame.bytes ≡ 8)
ClassicOutcome i payload (failure FrameValidationError.invalid_id) = id_valid i ≡ false
ClassicOutcome i payload (failure FrameValidationError.invalid_length) =
    (id_valid i ≡ true) × ((Span.valid payload ≡ false) ⊎ (8 < Span.size payload))

padded :
    (n : ℕ) (payload : Span ℕ)
    → Span.valid payload ≡ true
    → Span.size payload ≤ n
    → (take (Span.size payload) (store (replicate n 0) 0 (Span.elements payload))
        ≡ Span.elements payload)
      × (length (store (replicate n 0) 0 (Span.elements payload)) ≡ n)
padded n payload v h = (
  ap (λ (k : ℕ). take k (store zeros 0 (Span.elements payload)))
        (let e : Span.size payload ≡ 0 + length (Span.elements payload) =
            omega (arith, length-elements payload v) in
          e)
      ∙ take-store zeros 0 (Span.elements payload)
          (omega (arith, length-elements payload v, length-replicate {A = ℕ} n 0)),
  length-store zeros 0 (Span.elements payload) ∙ length-replicate n 0,
)
  where
    zeros : List ℕ
    zeros = replicate n 0

-- A classic frame is made exactly from a valid identifier and a valid payload of at most eight bytes,
-- and then carries that identifier and exactly those bytes; otherwise the error names what is wrong,
-- the identifier first.
pub make_classic_lem :
    (i : CanId) (payload : Span ℕ) → ClassicOutcome i payload (make_classic i payload)
unfolding make_classic
make_classic_lem i payload = elim (Bool-cases (id_valid i)) [
  | inr bad ↦ rw bad bad
  | inl good ↦ rw good (elim (Bool-cases (Span.valid payload)) [
    | inr bad ↦ rw bad (good, inl bad)
    | inl view ↦ rw view (elim (Bool-cases (ltb 8 (Span.size payload))) [
      | inl long ↦ rw long (good, inr (ltb→lt 8 (Span.size payload) long))
      | inr short ↦ rw short (
          let fits : Span.size payload ≤ 8 = ground arith in
          let (data_same, size_same) = padded 8 payload view fits in
          (good, fits, refl, data_same, size_same))
    ])
  ])
]

-- What `make_fd` gives for an identifier, a payload and two flags.
abbrev pub FdOutcome : CanId → Span ℕ → Bool → Bool → Result FdFrame FrameValidationError → Type 0
FdOutcome i payload brs esi (success frame) =
    (id_valid i ≡ true)
    × (valid_payload_length (Span.size payload) ≡ true)
    × (frame.frame_id ≡ i)
    × (frame.bit_rate_switch ≡ brs)
    × (frame.error_state_indicator ≡ esi)
    × (fd_data frame ≡ Span.elements payload)
    × (length frame.bytes ≡ 64)
FdOutcome i payload brs esi (failure FrameValidationError.invalid_id) = id_valid i ≡ false
FdOutcome i payload brs esi (failure FrameValidationError.invalid_length) =
    (id_valid i ≡ true)
    × ((Span.valid payload ≡ false) ⊎ (valid_payload_length (Span.size payload) ≡ false))

length_fits : (n : ℕ) → valid_payload_length n ≡ true → n ≤ 64
length_fits n h = ground arith

-- An FD frame is made exactly from a valid identifier and a valid payload of a length that FD frames
-- have, and then carries that identifier, those flags and exactly those bytes; otherwise the
-- error names what is wrong, the identifier first.
pub make_fd_lem :
    (i : CanId) (payload : Span ℕ) (brs esi : Bool)
    → FdOutcome i payload brs esi (make_fd i payload brs esi)
unfolding make_fd
make_fd_lem i payload brs esi = elim (Bool-cases (id_valid i)) [
  | inr bad ↦ rw bad bad
  | inl good ↦ rw good (elim (Bool-cases (Span.valid payload)) [
    | inr bad ↦ rw bad (good, inl bad)
    | inl view ↦ rw view (elim (Bool-cases (valid_payload_length (Span.size payload))) [
      | inr wrong ↦ rw wrong (good, inr wrong)
      | inl right ↦ rw right (
          let (data_same, size_same) =
            padded 64 payload view (length_fits (Span.size payload) right) in
          (good, right, refl, refl, refl, data_same, size_same))
    ])
  ])
]
