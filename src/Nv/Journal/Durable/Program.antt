-- ===== src/Nv/Journal/Durable/Program.antt =====
-- Programming a record on a lawful flash: where the flash is erased, its three parts stand behind
-- each other, and nothing else changes.
use native.Mathlib.Decide.{dec_lt}
use native.Mathlib.Nat.{add-div_left, div-eq_of_lt}
use ecu_drivers.Prelude.{
  ℕ, zero, suc, ◌+◌, ◌-◌, ◌*◌, ◌≤◌, ◌<◌, ◌≡◌, refl, ◌∙◌, sym, ap, ap₂, inl, inr, false, List, [],
  ◌∷◌, ◌++◌, ◌==◌, arith, length, slice, take-drop, slice-zero, slice-add, slice-store, take-slice,
  take-store, length-take, length-drop, store, take, drop, length-replicate, length-store, min,
}
use ecu_drivers.Foundation.Action.Rules.{Ensures, pure-Ensures, >>=-Ensures, if-Ensures, adapt}
use ecu_drivers.Nv.Contract.{NorFlash}
use ecu_drivers.Nv.Lawful.{IsLawful, AgreeOutside}
use ecu_drivers.Nv.Journal.Error.{JournalError}
use ecu_drivers.Nv.Journal.Bytes.{fill_erased}
use ecu_drivers.Nv.Journal.Layout.{Config, io_unit, journal_align_up}
use ecu_drivers.Nv.Journal.Monad.{JournalMemory, World}
use ecu_drivers.Nv.Journal.Storage.{write_chunks}
use ecu_drivers.Nv.Journal.Durable.Changes.{
  Clean, Clean-part, Clean-front, AgreeOutside-wider, AgreeOutside-trans, AgreeOutside-store,
  Clean-kept,
}
use ecu_drivers.Nv.Journal.Durable.Rules.{Is, program_array-Ensures}

-- the first chunk counts for one unit
align_up_step :
    (n unit : ℕ)
    → 0 < unit
    → 0 < n
    → journal_align_up n unit ≡ unit + journal_align_up (n - min n unit) unit
unfolding journal_align_up
align_up_step n unit pos h = elim (dec_lt unit n) [
  | yes k ↦
      let e : n + unit - 1 ≡ unit + (n - min n unit + unit - 1) = omega arith in
      rw e (ap (λ (t : ℕ). t * unit) (add-div_left (n - min n unit + unit - 1) pos) ∙ omega arith)
  | no k ↦
      let e : n + unit - 1 ≡ unit + (n - 1) = omega arith in
      let f : n - min n unit + unit - 1 ≡ unit - 1 = omega arith in
      rw (e, f)
        (ap (λ (t : ℕ). t * unit)
            (add-div_left (n - 1) pos
              ∙ ap (λ (t : ℕ). t + 1) (div-eq_of_lt (let g : n - 1 < unit = omega arith in g)))
          ∙ omega (
            arith,
            ap (λ (t : ℕ). t * unit) (div-eq_of_lt (let g : unit - 1 < unit = omega arith in g)),
          ))
]

-- The chunk with the first bytes of a payload.
abbrev chunk_of : ℕ → List ℕ → List ℕ
chunk_of unit rest = store (fill_erased unit) 0 (take (min (length rest) unit) rest)

length-chunk_of : (unit : ℕ) (rest : List ℕ) → length (chunk_of unit rest) ≡ unit
length-chunk_of unit rest =
    length-store (fill_erased unit) 0 (take (min (length rest) unit) rest)
    ∙ length-replicate unit 0xFF

take-chunk_of :
    (unit : ℕ) (rest : List ℕ)
    → take (min (length rest) unit) (chunk_of unit rest) ≡ take (min (length rest) unit) rest
take-chunk_of unit rest =
    ap (λ (k : ℕ). take k (chunk_of unit rest)) size
    ∙ take-store (fill_erased unit) 0 first
        (omega (arith, size, length-replicate {A = ℕ} unit 0xFF))
  where
    first : List ℕ
    first = take (min (length rest) unit) rest

    size : min (length rest) unit ≡ 0 + length first
    size = omega (arith, length-take (min (length rest) unit) rest)

align_up_zero : (unit : ℕ) → 0 < unit → journal_align_up 0 unit ≡ 0
unfolding journal_align_up
align_up_zero unit pos =
    ap (λ (t : ℕ). t * unit) (div-eq_of_lt (let g : 0 + unit - 1 < unit = omega arith in g))
    ∙ (let z : 0 * unit ≡ 0 = omega arith in z)

nothing : (rest : List ℕ) → length rest ≡ 0 → rest ≡ []
nothing [] e = refl
nothing (x ∷ rest) e = absurd (omega (arith, e))

-- A first chunk and the rest behind it make the payload.
payload_stands :
    (xs zs : List ℕ) (offset unit size : ℕ) (rest : List ℕ)
    → offset + unit ≤ length xs
    → slice zs (offset + unit) (length rest - min (length rest) unit)
      ≡ drop (min (length rest) unit) rest
    → AgreeOutside (offset + unit) size (store xs offset (chunk_of unit rest)) zs
    → slice zs offset (length rest) ≡ rest
payload_stands xs zs offset unit size rest inside later agree =
    ap (λ (n : ℕ). slice zs offset n)
      (let e : length rest ≡ k + (length rest - k) = omega arith in e)
    ∙ slice-add zs offset k (length rest - k)
    ∙ ap₂ (λ a b. a ++ b) front back
    ∙ take-drop k rest
  where
    k : ℕ
    k = min (length rest) unit

    front : slice zs offset k ≡ take k rest
    front =
        agree offset k (inl (omega arith))
        ∙ sym (take-slice (store xs offset (chunk_of unit rest)) offset k unit (omega arith))
        ∙ ap (λ (n : ℕ). take k (slice (store xs offset (chunk_of unit rest)) offset n))
            (sym (length-chunk_of unit rest))
        ∙ ap (λ l. take k l)
            (slice-store xs offset (chunk_of unit rest)
              (omega (arith, length-chunk_of unit rest, inside)))
        ∙ take-chunk_of unit rest

    back : slice zs (offset + k) (length rest - k) ≡ drop k rest
    back = elim (dec_lt unit (length rest)) [
      | yes more ↦
          ap (λ (n : ℕ). slice zs (offset + n) (length rest - k))
            (let e : k ≡ unit = omega arith in e)
          ∙ later
      | no all ↦
          let none : length rest - k ≡ 0 = omega arith in
          ap (λ (n : ℕ). slice zs (offset + k) n) none
          ∙ slice-zero zs (offset + k)
          ∙ sym (nothing (drop k rest) (omega (arith, length-drop k rest, none)))
    ]

module _ {S : Type 0} {contents : S → List ℕ} (c : Config) (flash : NorFlash S)
    (law : IsLawful contents flash) (unit_pos : 0 < io_unit c) where
  -- What programming `size` bytes at `offset` leaves when it fails.
  abbrev pub Spoils : List ℕ → ℕ → ℕ → JournalMemory → JournalError → World S → Type 0
  Spoils xs offset size m e w = (w.memory ≡ m) × AgreeOutside offset size xs (contents w.flash)

  -- The payload stands at `offset`, in as many whole units as it needs.
  abbrev pub Written : List ℕ → ℕ → List ℕ → JournalMemory → ℕ → World S → Type 0
  Written xs offset payload m stop w =
      (stop ≡ offset + journal_align_up (length payload) (io_unit c))
      × (w.memory ≡ m)
      × (length (contents w.flash) ≡ length xs)
      × (slice (contents w.flash) offset (length payload) ≡ payload)
      × AgreeOutside offset (journal_align_up (length payload) (io_unit c)) xs (contents w.flash)

  Clean-first :
      (xs : List ℕ) (offset : ℕ) (rest : List ℕ)
      → Clean xs offset (journal_align_up (length rest) (io_unit c))
      → 0 < length rest
      → Clean xs offset (length (chunk_of (io_unit c) rest))
  Clean-first xs offset rest clean pos = rw (length-chunk_of (io_unit c) rest) (
      Clean-front xs offset (journal_align_up (length rest) (io_unit c)) (io_unit c) clean
        (omega (arith, align_up_step (length rest) (io_unit c) unit_pos pos)))

  Written-none :
      (xs : List ℕ) (offset : ℕ) (rest : List ℕ) (m : JournalMemory) (w : World S)
      → Is contents xs m w
      → length rest ≡ 0
      → Written xs offset rest m offset w
  Written-none xs offset (x ∷ rest) m w h e = absurd (omega (arith, e))
  Written-none xs offset [] m w h e = (
    omega (arith, align_up_zero (io_unit c) unit_pos),
    h.1,
    ap length h.0,
    slice-zero (contents w.flash) offset,
    λ j n o. ap (λ l. slice l j n) h.0,
  )

  pub write_chunks-Ensures :
      (fuel : ℕ) (xs : List ℕ) (offset : ℕ) (rest : List ℕ) (m : JournalMemory)
      → length rest ≤ fuel
      → offset + journal_align_up (length rest) (io_unit c) ≤ length xs
      → Clean xs offset (journal_align_up (length rest) (io_unit c))
      → Ensures
          (Is contents xs m)
          (write_chunks c flash fuel offset rest)
          (Written xs offset rest m)
          (Spoils xs offset (journal_align_up (length rest) (io_unit c)) m)
  unfolding write_chunks
  write_chunks-Ensures zero xs offset rest m enough inside clean =
      pure-Ensures _ offset (λ w h. Written-none xs offset rest m w h (omega (arith, enough)))
  write_chunks-Ensures (suc fuel) xs offset rest m enough inside clean =
      if-Ensures (length rest == 0)
        (λ e. pure-Ensures _ offset (λ w h. Written-none xs offset rest m w h (ground (arith, e))))
        (λ e.
          >>=-Ensures (λ _. Is contents (store xs offset (chunk_of (io_unit c) rest)) m)
            (program_array-Ensures contents c flash law offset (chunk_of (io_unit c) rest)
              (Clean-first xs offset rest clean (ground (arith, e)))
              (λ x w same agree. (
                same,
                AgreeOutside-wider _ _ _ _ _ _ agree (omega arith) (
                    omega (
                      arith,
                      length-chunk_of (io_unit c) rest,
                      align_up_step (length rest) (io_unit c) unit_pos (ground (arith, e)),
                    )),
              )))
            (λ _.
              adapt
                (write_chunks-Ensures fuel (store xs offset (chunk_of (io_unit c) rest))
                  (offset + io_unit c) (drop (min (length rest) (io_unit c)) rest) m
                  (omega (arith, size, enough, positive e, unit_pos))
                  (omega (
                    arith,
                    length-store xs offset (chunk_of (io_unit c) rest),
                    grow (positive e),
                    inside,
                  ))
                  (later_clean (positive e)))
                (λ w h. h)
                (λ stop w h. (
                  omega (arith, h.0, grow (positive e)),
                  h.1,
                  h.2 ∙ length-store xs offset (chunk_of (io_unit c) rest),
                  payload_stands xs (contents w.flash) offset (io_unit c)
                      (journal_align_up (length behind) (io_unit c)) rest
                      (omega (arith, inside, grow (positive e)))
                      (ap (λ (n : ℕ). slice (contents w.flash) (offset + io_unit c) n) (sym size)
                        ∙ h.3)
                      h.4,
                  both (positive e) (contents w.flash) h.4,
                ))
                (λ x w h. (h.0, both (positive e) (contents w.flash) h.1))))
    where
      behind : List ℕ
      behind = drop (min (length rest) (io_unit c)) rest

      size : length behind ≡ length rest - min (length rest) (io_unit c)
      size = length-drop (min (length rest) (io_unit c)) rest

      positive : (length rest == 0) ≡ false → 0 < length rest
      positive e = ground (arith, e)

      grow :
          0 < length rest
          → journal_align_up (length rest) (io_unit c)
            ≡ io_unit c + journal_align_up (length behind) (io_unit c)
      grow pos =
          align_up_step (length rest) (io_unit c) unit_pos pos
          ∙ ap (λ (n : ℕ). io_unit c + journal_align_up n (io_unit c)) (sym size)

      later_clean :
          0 < length rest
          → Clean
              (store xs offset (chunk_of (io_unit c) rest))
              (offset + io_unit c)
              (journal_align_up (length behind) (io_unit c))
      later_clean pos =
          Clean-kept xs (store xs offset (chunk_of (io_unit c) rest)) offset
            (length (chunk_of (io_unit c) rest)) (offset + io_unit c)
            (journal_align_up (length behind) (io_unit c))
            (AgreeOutside-store xs offset (chunk_of (io_unit c) rest))
            (inr (omega (arith, length-chunk_of (io_unit c) rest)))
            (Clean-part xs offset (journal_align_up (length rest) (io_unit c)) (io_unit c)
              (journal_align_up (length behind) (io_unit c)) clean (omega (arith, grow pos)))

      both :
          0 < length rest
          → (zs : List ℕ)
          → AgreeOutside
              (offset + io_unit c)
              (journal_align_up (length behind) (io_unit c))
              (store xs offset (chunk_of (io_unit c) rest))
              zs
          → AgreeOutside offset (journal_align_up (length rest) (io_unit c)) xs zs
      both pos zs agree =
          AgreeOutside-trans xs (store xs offset (chunk_of (io_unit c) rest)) zs _ _
            (AgreeOutside-wider _ _ _ _ _ _
              (AgreeOutside-store xs offset (chunk_of (io_unit c) rest)) (omega arith)
              (omega (arith, length-chunk_of (io_unit c) rest, grow pos)))
            (AgreeOutside-wider _ _ _ _ _ _ agree (omega arith) (omega (arith, grow pos)))
