-- ===== src/Linux/Nv/Refuse.antt =====
-- Requests that `FileNorFlash` refuses before it touches the file.
use ecu_drivers.Prelude.{ℕ, ◌+◌, ◌%◌, ◌≤◌, ◌<◌, ◌≡◌, refl, ◌⊎◌, inl, inr, true, false, arith}
use ecu_drivers.Foundation.Result.{failure}
use ecu_drivers.Foundation.Span
use ecu_drivers.Foundation.Span.{Span}
use ecu_drivers.Foundation.Action.{Action, pure, fail, ◌>>=◌}
use ecu_drivers.Nv.Contract.{FlashErrorKind, FlashGeometry}
use ecu_drivers.Linux.Io.{Operation, System}
use ecu_drivers.Linux.Nv.{FlashError, error, in_bounds, aligned, read, program, erase}

-- the three operations that take a range
pub data Request : Type 0 where
  reading programming erasing : Request

-- Past the end comes before misalignment.
abbrev pub IsRefused : FlashGeometry → ℕ → ℕ → ℕ → FlashErrorKind → Type 0
IsRefused g offset size unit kind =
    ((g.capacity < offset + size) × (kind ≡ FlashErrorKind.out_of_range))
    ⊎ ((offset + size ≤ g.capacity)
        × ((0 < offset % unit) ⊎ (0 < size % unit))
        × (kind ≡ FlashErrorKind.not_aligned))

module _ {F : Type 0} (sys : System F) (g : FlashGeometry) (interrupts : ℕ) where
  abbrev pub unit_of : Request → ℕ
  unit_of reading = g.read_size
  unit_of programming = g.program_size
  unit_of erasing = g.erase_size

  abbrev pub operation_of : Request → Operation
  operation_of reading = Operation.read
  operation_of programming = Operation.write
  operation_of erasing = Operation.write

  -- what becomes of a request, less the bytes of a read
  abbrev pub perform : Request → ℕ → Span ℕ → Action F FlashError Unit
  perform reading offset input = read sys g interrupts offset input >>= λ _. pure tt
  perform programming offset input = program sys g interrupts offset input
  perform erasing offset input = erase sys g interrupts offset (Span.size input)

  outside :
      (offset size unit : ℕ) (kind : FlashErrorKind)
      → IsRefused g offset size unit kind
      → ((in_bounds sys g interrupts offset size ≡ false) × (kind ≡ FlashErrorKind.out_of_range))
        ⊎ ((in_bounds sys g interrupts offset size ≡ true)
            × (aligned sys g interrupts offset size unit ≡ false)
            × (kind ≡ FlashErrorKind.not_aligned))
  unfolding in_bounds aligned
  outside offset size unit kind (inl h) = inl (ground (arith, h.0), h.1)
  outside offset size unit kind (inr h) = inr (ground (arith, h.0), ground (arith, h.1), h.2)

  -- A range that passes the end is refused as out of range, and one inside whose offset or size is
  -- no multiple of the operation's unit as not aligned; a refused read, program or erase, over a
  -- valid span, gives EINVAL with its operation and leaves the file alone.
  pub perform_refuses :
      (request : Request) (offset : ℕ) (input : Span ℕ) (kind : FlashErrorKind) (f : F)
      → Span.valid input ≡ true
      → IsRefused g offset (Span.size input) (unit_of request) kind
      → perform request offset input f ≡ (failure (error sys.einval kind (operation_of request)), f)
  unfolding read program erase fail ◌>>=◌
  perform_refuses reading offset input kind f valid h =
      elim (outside offset (Span.size input) g.read_size kind h) [
        | inl out ↦ rw (valid, out.0, out.1) refl
        | inr bad ↦ rw (valid, bad.0, bad.1, bad.2) refl
      ]
  perform_refuses programming offset input kind f valid h =
      elim (outside offset (Span.size input) g.program_size kind h) [
        | inl out ↦ rw (valid, out.0, out.1) refl
        | inr bad ↦ rw (valid, bad.0, bad.1, bad.2) refl
      ]
  perform_refuses erasing offset input kind f valid h =
      elim (outside offset (Span.size input) g.erase_size kind h) [
        | inl out ↦ rw (out.0, out.1) refl
        | inr bad ↦ rw (bad.0, bad.1, bad.2) refl
      ]
