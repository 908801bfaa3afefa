-- ===== src/Linux/Nv.antt =====
-- platforms/linux/include/hal/nv.hpp: `FileNorFlash`, a NOR flash in a regular file.
pub mod Exact
pub mod Lawful
pub mod Refuse
pub mod Clears
mod Tests
use ecu_drivers.Prelude.{
  ℕ, zero, suc, ◌+◌, ◌-◌, ◌%◌, ◌<◌, ◌≡◌, bit_or, Bool, true, false, ◌&&◌, ◌||◌, not, List, [], ◌∷◌,
  ◌==◌, leb, length, take, drop, replicate, min, if◌then◌else◌,
}
use ecu_drivers.Foundation.Result.{Result, VoidResult, success, failure, map_error}
use ecu_drivers.Foundation.Span
use ecu_drivers.Foundation.Span.{Span}
use ecu_drivers.Foundation.Action.{Action, pure, fail, on_error, ◌>>=◌, ◌>>◌}
use ecu_drivers.Nv.Contract.{FlashErrorKind, FlashGeometry, NorFlash}
use ecu_drivers.Linux.Io.{Operation, Error, Answer, Metadata, System, pread_exact, pwrite_exact}

abbrev pub FlashError : Type 0
FlashError = Error FlashErrorKind

abbrev pub error : ℕ → FlashErrorKind → Operation → FlashError
error native_error kind operation = record {
  kind = kind;
  native_error = native_error;
  failed_operation = operation;
}

-- `current | data` changes no byte of `current`
unfoldable pub only_clears : List ℕ → List ℕ → Bool
only_clears (x ∷ current) (y ∷ data_left) = bit_or x y == x && only_clears current data_left
only_clears [] data_left = true
only_clears (x ∷ current) [] = true

module _ {F : Type 0} (sys : System F) (g : FlashGeometry) (interrupts : ℕ) where
  -- the static assertions of the template, less the one on `off_t`
  pub record IsFlash : Type 0 where
    pub capacity_pos : 0 < g.capacity
    pub program_pos : 0 < g.program_size
    pub erase_pos : 0 < g.erase_size
    pub read_pos : 0 < g.read_size
    pub whole_sectors : g.capacity % g.erase_size ≡ 0
    pub whole_units : g.erase_size % g.program_size ≡ 0
    pub whole_reads : g.program_size % g.read_size ≡ 0

  unfoldable pub in_bounds : ℕ → ℕ → Bool
  in_bounds offset size = leb offset g.capacity && leb size (g.capacity - offset)

  -- the sizes are not zero
  unfoldable pub aligned : ℕ → ℕ → ℕ → Bool
  aligned offset size alignment = offset % alignment == 0 && size % alignment == 0

  -- a positioned loop, whose errno is put into an error: zero stands for EIO
  abbrev pub on_file :
      {A : Type 0} → FlashErrorKind → Operation → Action F ℕ A → Action F FlashError A
  on_file kind operation m f =
      let (r, f') = m f in
      (map_error (λ e. error (if e == 0 then sys.eio else e) kind operation) r, f')

  -- On success the bytes that the call leaves in `data`.
  unfoldable pub read : ℕ → Span ℕ → Action F FlashError (List ℕ)
  read offset output =
      if not (Span.valid output)
      then fail (error sys.einval FlashErrorKind.other Operation.read)
      else if not (in_bounds offset (Span.size output))
      then fail (error sys.einval FlashErrorKind.out_of_range Operation.read)
      else if not (aligned offset (Span.size output) g.read_size)
      then fail (error sys.einval FlashErrorKind.not_aligned Operation.read)
      else if Span.empty output
      then pure []
      else on_file FlashErrorKind.io Operation.read
          (pread_exact sys (Span.size output + interrupts) offset (Span.size output))

  -- A round programs `ProgramSize` bytes, and the size is a multiple of that.
  unfoldable pub program_loop : ℕ → ℕ → List ℕ → Action F FlashError Unit
  program_loop zero offset data_left = pure tt
  program_loop (suc fuel) offset data_left =
      let block = take g.program_size data_left in
      let rest =
        on_file FlashErrorKind.io Operation.write
          (pwrite_exact sys (length block + interrupts) offset block)
        >> program_loop fuel (offset + g.program_size) (drop g.program_size data_left) in
      let round =
        on_file FlashErrorKind.io Operation.read
          (pread_exact sys (g.program_size + interrupts) offset g.program_size)
        >>= λ current.
            if not (only_clears current block)
            then fail (error sys.eio FlashErrorKind.program Operation.write)
            else rest in
      if length data_left == 0 then pure tt else round

  unfoldable pub program : ℕ → Span ℕ → Action F FlashError Unit
  unfolding program_loop
  program offset input =
      if not (Span.valid input)
      then fail (error sys.einval FlashErrorKind.other Operation.write)
      else if not (in_bounds offset (Span.size input))
      then fail (error sys.einval FlashErrorKind.out_of_range Operation.write)
      else if not (aligned offset (Span.size input) g.program_size)
      then fail (error sys.einval FlashErrorKind.not_aligned Operation.write)
      else program_loop (Span.size input) offset (Span.elements input)

  -- The loop of `erase` and of `open` over chunks of erased bytes; each takes at least one.
  unfoldable pub erase_loop : FlashErrorKind → ℕ → ℕ → ℕ → Action F FlashError Unit
  erase_loop kind zero offset left = pure tt
  erase_loop kind (suc fuel) offset left =
      let count = min left 4096 in
      let round =
        on_file kind Operation.write
          (pwrite_exact sys (count + interrupts) offset (replicate count 0xFF))
        >> erase_loop kind fuel (offset + count) (left - count) in
      if left == 0 then pure tt else round

  unfoldable pub erase : ℕ → ℕ → Action F FlashError Unit
  unfolding erase_loop
  erase offset size =
      if not (in_bounds offset size)
      then fail (error sys.einval FlashErrorKind.out_of_range Operation.write)
      else if not (aligned offset size g.erase_size)
      then fail (error sys.einval FlashErrorKind.not_aligned Operation.write)
      else erase_loop FlashErrorKind.erase size offset size

  unfoldable pub sync : Action F FlashError Unit
  sync f =
      let (r, f') = sys.fdatasync f in
      (map_error (λ e. error e FlashErrorKind.io Operation.synchronize) r, f')

  -- a call whose errno is reported as it is
  abbrev pub on_call : {A : Type 0} → Operation → (F → Result A ℕ × F) → Action F FlashError A
  on_call operation call f =
      let (r, f') = call f in (map_error (λ e. error e FlashErrorKind.io operation) r, f')

  -- what `open` does with the file that it has opened
  unfoldable pub prepare : Bool → Action F FlashError Unit
  unfolding erase_loop
  prepare create = do
    metadata ← on_call Operation.open_file sys.fstat
    if not metadata.is_regular
        then fail (error sys.einval FlashErrorKind.io Operation.configure)
        else if metadata.size == 0 && create
        then (on_call Operation.configure (sys.ftruncate g.capacity)
            >> erase_loop FlashErrorKind.io g.capacity 0 g.capacity)
        else if not (metadata.size == g.capacity)
        then fail (error sys.einval FlashErrorKind.io Operation.configure)
        else pure tt

  -- whether a device is given, and whether it is to be created
  unfoldable pub open_flash : Bool → Bool → Action F FlashError Unit
  unfolding prepare
  open_flash device create =
      if not device
      then fail (error sys.einval FlashErrorKind.io Operation.open_file)
      else (on_call Operation.open_file (sys.open_path create)
          >> on_error (prepare create) sys.close)

  -- The flash as the journal sees it: spans of arrays, and the kind of an error.
  unfoldable pub nor_flash : NorFlash F
  unfolding read program erase sync
  nor_flash = record {
    read = λ offset size f. on_kind (read offset (Span.view (replicate size 0)) f);
    program = λ offset input f. on_kind (program offset (Span.view input) f);
    erase = λ offset size f. on_kind (erase offset size f);
    sync = λ f. on_kind (sync f);
  }
    where
      on_kind : {A : Type 0} → Result A FlashError × F → Result A FlashErrorKind × F
      on_kind out = (map_error (λ (e : FlashError). e.kind) out.0, out.1)
