-- ===== src/Linux/Nv/Clears.antt =====
-- A program that succeeds has only cleared bits.
use native.Mathlib.Nat.{mod-eq-sub-mod}
use ecu_drivers.Prelude.{
  ℕ, zero, suc, ◌+◌, ◌-◌, ◌%◌, ◌≤◌, ◌<◌, ◌≡◌, subst, bit_or, get_or, get_or-store_at, refl, ◌∙◌,
  sym, ap, ap₂, true, not, List, [], ◌∷◌, ◌++◌, ◌==◌, arith, length, take, drop, take-drop, slice,
  slice-add, slice-zero, slice-store_after, store, length-store, length-take, length-drop,
  length-slice,
}
use ecu_drivers.Prelude.Bits.{digit, bit_or-digit}
use ecu_drivers.Foundation.Result.{success}
use ecu_drivers.Foundation.Span
use ecu_drivers.Foundation.Action.Rules.{
  Ensures, pure-Ensures, fail-Ensures, >>=-Ensures, if-Ensures, adapt, succeeds,
}
use ecu_drivers.Nv.Contract.{FlashErrorKind, FlashGeometry}
use ecu_drivers.Nv.Journal.Durable.Rules.{known_then}
use ecu_drivers.Linux.Io.{Operation, System}
use ecu_drivers.Linux.Nv.{IsFlash, only_clears, in_bounds, aligned, program_loop, program}
use ecu_drivers.Linux.Nv.Exact.{IsPosix, Has, pread_exact-Ensures, pwrite_exact-Ensures}
use ecu_drivers.Linux.Nv.Lawful.{on_file-Ensures, at_least_a_unit, program-Puts}

only_clears-append :
    (xs ys us vs : List ℕ)
    → length xs ≡ length ys
    → only_clears xs ys ≡ true
    → only_clears us vs ≡ true
    → only_clears (xs ++ us) (ys ++ vs) ≡ true
unfolding only_clears
only_clears-append [] [] us vs e h k = k
only_clears-append [] (y ∷ ys) us vs e h k = absurd (omega (arith, e))
only_clears-append (x ∷ xs) [] us vs e h k = absurd (omega (arith, e))
only_clears-append (x ∷ xs) (y ∷ ys) us vs e h k =
    ground (arith, h, only_clears-append xs ys us vs (omega (arith, e)) (ground (arith, h)) k)

nothing_clears : (xs : List ℕ) (input : List ℕ) → length xs ≡ 0 → only_clears xs input ≡ true
unfolding only_clears
nothing_clears [] input e = refl
nothing_clears (x ∷ xs) input e = absurd (omega (arith, e))

only_clears-at :
    (xs ys : List ℕ) (j : ℕ)
    → only_clears xs ys ≡ true
    → j < length xs
    → j < length ys
    → bit_or (get_or xs j 0) (get_or ys j 0) ≡ get_or xs j 0
unfolding only_clears
only_clears-at [] ys j h k l = absurd (omega arith)
only_clears-at (x ∷ xs) [] j h k l = absurd (omega arith)
only_clears-at (x ∷ xs) (y ∷ ys) zero h k l = ground (arith, h)
only_clears-at (x ∷ xs) (y ∷ ys) (suc j) h k l =
    only_clears-at xs ys j (ground (arith, h)) (omega arith) (omega arith)

get_or-drop : (i : ℕ) (xs : List ℕ) (j : ℕ) → get_or (drop i xs) j 0 ≡ get_or xs (i + j) 0
get_or-drop zero xs j = ap (λ (n : ℕ). get_or xs n 0) (omega arith)
get_or-drop (suc i) [] j = refl
get_or-drop (suc i) (x ∷ xs) j =
    get_or-drop i xs j
    ∙ ap (λ (n : ℕ). get_or (x ∷ xs) n 0) (let e : suc (i + j) ≡ suc i + j = omega arith in e)

get_or-take : (n : ℕ) (xs : List ℕ) (j : ℕ) → j < n → get_or (take n xs) j 0 ≡ get_or xs j 0
get_or-take zero xs j h = absurd (omega arith)
get_or-take (suc n) [] j h = refl
get_or-take (suc n) (x ∷ xs) zero h = refl
get_or-take (suc n) (x ∷ xs) (suc j) h = get_or-take n xs j (omega arith)

get_or-slice : (xs : List ℕ) (i n j : ℕ) → j < n → get_or (slice xs i n) j 0 ≡ get_or xs (i + j) 0
unfolding slice
get_or-slice xs i n j h = get_or-take n (drop i xs) j h ∙ get_or-drop i xs j

-- the code's test, bit by bit
clears_digits :
    (xs : List ℕ) (offset : ℕ) (input : List ℕ) (j i : ℕ)
    → only_clears (slice xs offset (length input)) input ≡ true
    → offset + length input ≤ length xs
    → j < length input
    → digit i (get_or input j 0) ≤ digit i (get_or xs (offset + j) 0)
clears_digits xs offset input j i h inside k =
    subst (λ (x : ℕ). digit i (get_or input j 0) ≤ digit i x)
      (get_or-slice xs offset (length input) j k)
      (bit_or-digit i (get_or (slice xs offset (length input)) j 0) (get_or input j 0) (
        only_clears-at (slice xs offset (length input)) input j h
          (omega (arith, length-slice xs offset (length input) inside, k)) k))

module _ {F : Type 0} {contents : F → List ℕ} (sys : System F) (posix : IsPosix contents sys)
    (g : FlashGeometry) (interrupts : ℕ) (ok : IsFlash sys g interrupts) where
  -- Programming these bytes changes bits of the contents from one to zero alone.
  abbrev Clears : List ℕ → ℕ → List ℕ → Type 0
  Clears xs offset input = only_clears (slice xs offset (length input)) input ≡ true

  Clears-none :
      (xs : List ℕ) (offset : ℕ) (input : List ℕ) → length input ≡ 0 → Clears xs offset input
  Clears-none xs offset input e =
      nothing_clears _ input
        (ap (λ (n : ℕ). length (slice xs offset n)) e ∙ ap length (slice-zero xs offset))

  Clears-both :
      (xs : List ℕ) (offset : ℕ) (input : List ℕ)
      → offset + length input ≤ length xs
      → g.program_size ≤ length input
      → only_clears (slice xs offset g.program_size) (take g.program_size input) ≡ true
      → Clears
          (store xs offset (take g.program_size input))
          (offset + g.program_size)
          (drop g.program_size input)
      → Clears xs offset input
  Clears-both xs offset input inside full first later =
      ap (λ (n : ℕ). only_clears (slice xs offset n) input)
        (let e : length input ≡ unit + left = omega arith in e)
      ∙ ap₂ (λ l d. only_clears l d) (slice-add xs offset unit left) (sym (take-drop unit input))
      ∙ only_clears-append (slice xs offset unit) (take unit input) (slice xs (offset + unit) left)
          (drop unit input) (length-slice xs offset unit (omega (arith, inside, full)) ∙ sym block)
          first
          (ap (λ l. only_clears l (drop unit input))
              (sym (
                slice-store_after xs (offset + unit) left offset (take unit input)
                  (omega (arith, block))))
            ∙ ap
                (λ (n : ℕ).
                  only_clears (slice (store xs offset (take unit input)) (offset + unit) n)
                    (drop unit input))
                (sym (length-drop unit input))
            ∙ later)
    where
      unit : ℕ
      unit = g.program_size

      left : ℕ
      left = length input - g.program_size

      block : length (take g.program_size input) ≡ g.program_size
      block = omega (arith, length-take g.program_size input, full)

  program_loop-Clears :
      (fuel : ℕ) (xs : List ℕ) (offset : ℕ) (input : List ℕ)
      → length input ≤ fuel
      → length input % g.program_size ≡ 0
      → offset + length input ≤ length xs
      → Ensures
          (Has sys posix xs)
          (program_loop sys g interrupts fuel offset input)
          (λ _ _. Clears xs offset input)
          (λ _ _. Unit)
  unfolding program_loop
  program_loop-Clears zero xs offset input enough whole inside =
      pure-Ensures _ tt (λ f h. Clears-none xs offset input (omega (arith, enough)))
  program_loop-Clears (suc fuel) xs offset input enough whole inside =
      if-Ensures (length input == 0)
        (λ e. pure-Ensures _ tt (λ f h. Clears-none xs offset input (ground (arith, e))))
        (λ e.
          >>=-Ensures (λ bytes f. (bytes ≡ slice xs offset g.program_size) × Has sys posix xs f)
            (on_file-Ensures sys posix g interrupts (λ _. Unit) FlashErrorKind.io Operation.read
              (adapt
                (pread_exact-Ensures sys posix (g.program_size + interrupts) xs offset
                  g.program_size)
                (λ f h. h) (λ _ f h. h) (λ x f h. tt)))
            (known_then (slice xs offset g.program_size) _ (
              if-Ensures
                (not (only_clears (slice xs offset g.program_size) (take g.program_size input)))
                (λ _. fail-Ensures _ (λ f h. tt))
                (λ good.
                  let full : g.program_size ≤ length input =
                    at_least_a_unit (length input) g.program_size (ground (arith, e)) whole in
                  >>=-Ensures (λ _. Has sys posix (store xs offset (take g.program_size input)))
                    (on_file-Ensures sys posix g interrupts (λ _. Unit) FlashErrorKind.io
                      Operation.write
                      (adapt
                        (pwrite_exact-Ensures sys posix
                          (length (take g.program_size input) + interrupts) xs offset
                          (take g.program_size input))
                        (λ f h. h) (λ _ f h. h) (λ x f h. tt)))
                    (λ _.
                      adapt
                        (program_loop-Clears fuel (store xs offset (take g.program_size input))
                          (offset + g.program_size) (drop g.program_size input)
                          (omega
                            (arith, length-drop g.program_size input, enough, full, ok.program_pos))
                          (ap (λ (n : ℕ). n % g.program_size) (length-drop g.program_size input)
                            ∙ sym (mod-eq-sub-mod full)
                            ∙ whole)
                          (omega (
                            arith,
                            length-drop g.program_size input,
                            length-store xs offset (take g.program_size input),
                            full,
                            inside,
                          )))
                        (λ f h. h)
                        (λ _ f h. Clears-both xs offset input inside full (ground (arith, good)) h)
                        (λ x f h. tt))))))

  -- what a successful program has checked, and put
  cleared :
      (offset : ℕ) (input : List ℕ) (f f' : F)
      → g.capacity ≤ length (contents f)
      → program sys g interrupts offset (Span.view input) f ≡ (success tt, f')
      → (Clears (contents f) offset input) × (offset + length input ≤ length (contents f))
  unfolding program in_bounds aligned
  cleared offset input f f' sized e =
      succeeds
        {R = λ _ _.
          (Clears (contents f) offset input) × (offset + length input ≤ length (contents f))}
        (if-Ensures (not (in_bounds sys g interrupts offset (length input)))
          (λ _. fail-Ensures _ (λ x h. tt))
          (λ inside.
            if-Ensures (not (aligned sys g interrupts offset (length input) g.program_size))
              (λ _. fail-Ensures _ (λ x h. tt))
              (λ whole.
                adapt
                  (program_loop-Clears (length input) (contents f) offset input (omega arith)
                    (ground (arith, whole)) (ground (arith, inside, sized)))
                  (λ f h. h) (λ _ f h. (h, ground (arith, inside, sized))) (λ x f h. tt))))
        refl e

  -- On a file whose contents cover the flash and whose calls obey POSIX, a program that succeeds has put its bytes at
  -- its offset and nothing else, and no bit of any of these bytes was zero there before and is one now.
  pub program_clears :
      (offset : ℕ) (input : List ℕ) (f f' : F) (j i : ℕ)
      → g.capacity ≤ length (contents f)
      → program sys g interrupts offset (Span.view input) f ≡ (success tt, f')
      → j < length input
      → (contents f' ≡ store (contents f) offset input)
        × (get_or (contents f') (offset + j) 0 ≡ get_or input j 0)
        × (digit i (get_or (contents f') (offset + j) 0)
            ≤ digit i (get_or (contents f) (offset + j) 0))
  program_clears offset input f f' j i sized e inside = (
    put,
    here,
    subst (λ (x : ℕ). digit i x ≤ digit i (get_or (contents f) (offset + j) 0)) (sym here)
        (clears_digits (contents f) offset input j i known.0 known.1 inside),
  )
    where
      known : (Clears (contents f) offset input) × (offset + length input ≤ length (contents f))
      known = cleared offset input f f' sized e

      put : contents f' ≡ store (contents f) offset input
      put = succeeds (program-Puts sys posix g interrupts ok (contents f) offset input) refl e

      here : get_or (contents f') (offset + j) 0 ≡ get_or input j 0
      here =
          ap (λ l. get_or l (offset + j) 0) put
          ∙ get_or-store_at (contents f) offset input j 0 known.1 inside
