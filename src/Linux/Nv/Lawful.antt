-- ===== src/Linux/Nv/Lawful.antt =====
-- `FileNorFlash` on a file that obeys POSIX is a NOR flash as the journal needs it.
use native.Mathlib.Decide.{dec_lt}
use native.Mathlib.Nat.{mod-eq_of_lt, mod-eq-sub-mod}
use ecu_drivers.Prelude.{
  ℕ, zero, suc, ◌+◌, ◌-◌, ◌%◌, ◌≤◌, ◌<◌, ◌≡◌, refl, ◌∙◌, sym, ap, subst, not, List, [], ◌∷◌, ◌++◌,
  ◌==◌, arith, length, take, drop, take-drop, slice, store, store-append, length-take,
  length-append, length-drop, length-replicate, replicate, min, if◌then◌else◌,
}
use ecu_drivers.Foundation.Result.{Result, success, failure, map_error}
use ecu_drivers.Foundation.Span
use ecu_drivers.Foundation.Span.{Span}
use ecu_drivers.Foundation.Action.{◌>>◌}
use ecu_drivers.Foundation.Action.Rules.{
  Post, Ensures, pure-Ensures, fail-Ensures, >>=-Ensures, if-Ensures, adapt,
}
use ecu_drivers.Nv.Contract.{FlashErrorKind, FlashGeometry}
use ecu_drivers.Nv.Lawful.{IsLawful, AgreeOutside, ReadOutcome, ProgramOutcome, EraseOutcome}
use ecu_drivers.Nv.Journal.Durable.Changes.{
  AgreeOutside-wider, AgreeOutside-trans, AgreeOutside-store,
}
use ecu_drivers.Linux.Io.{Operation, System}
use ecu_drivers.Linux.Nv.{
  FlashError, error, IsFlash, only_clears, in_bounds, aligned, on_file, read, program_loop, program,
  erase_loop, erase, sync, nor_flash,
}
use ecu_drivers.Linux.Nv.Exact.{
  IsPosix, Has, pread_exact-Ensures, pwrite_exact-Ensures, all, none, untouched,
}

replicate-add : (a b v : ℕ) → replicate a v ++ replicate b v ≡ replicate (a + b) v
replicate-add zero b v = ap (λ (n : ℕ). replicate n v) (let e : b ≡ 0 + b = omega arith in e)
replicate-add (suc a) b v =
    ap (λ l. v ∷ l) (replicate-add a b v)
    ∙ ap (λ (n : ℕ). replicate n v) (let e : suc (a + b) ≡ suc a + b = omega arith in e)

pub at_least_a_unit : (size unit : ℕ) → 0 < size → size % unit ≡ 0 → unit ≤ size
at_least_a_unit size unit pos whole = elim (dec_lt size unit) [
  | yes short ↦ absurd (omega (arith, pos, whole, mod-eq_of_lt short))
  | no long ↦ omega arith
]

module _ {F : Type 0} {contents : F → List ℕ} (sys : System F) (posix : IsPosix contents sys)
    (g : FlashGeometry) (interrupts : ℕ) where
  pub on_file-Ensures :
      {A : Type 0} {P : F → Type 0} {R : A → F → Type 0} (L : F → Type 0) (kind : FlashErrorKind)
      (operation : Operation) {m : F → Result A ℕ × F}
      → Ensures P m R (λ _. L)
      → Ensures P (on_file sys g interrupts kind operation m) R (λ _. L)
  on_file-Ensures {A} {P} {R} L kind operation {m} h = record {
    apply = λ f p. go (m f) (h.apply f p);
  }
    where
      go :
          (out : Result A ℕ × F)
          → Post R (λ _. L) out
          → Post R
              (λ (_ : FlashError). L)
              (
                map_error (λ (e : ℕ). error (if e == 0 then sys.eio else e) kind operation) out.0,
                out.1,
              )
      go (success a, f) p = p
      go (failure e, f) p = p

  -- The contents get these bytes, or a failure has changed no others.
  abbrev Puts : List ℕ → ℕ → List ℕ → (F → Result Unit FlashError × F) → Type 0
  Puts xs offset input m =
      Ensures (Has sys posix xs) m (λ _. Has sys posix (store xs offset input))
        (λ _ f. AgreeOutside offset (length input) xs (contents f))

  -- What is put in two parts is put.
  two_parts :
      (xs : List ℕ) (offset next : ℕ) (first second input : List ℕ)
      {m k : F → Result Unit FlashError × F}
      → first ++ second ≡ input
      → next ≡ offset + length first
      → Puts xs offset first m
      → Puts (store xs offset first) next second k
      → Puts xs offset input (m >> k)
  two_parts xs offset next first second input whole at h k =
      >>=-Ensures (λ _. Has sys posix (store xs offset first))
        (adapt h (λ f p. p) (λ _ f p. p)
          (λ e f p. AgreeOutside-wider _ _ _ _ _ _ p (omega arith) (omega (arith, total))))
        (λ _.
          adapt k (λ f p. p)
            (λ _ f p.
              p
              ∙ ap (λ (n : ℕ). store (store xs offset first) n second) at
              ∙ store-append xs offset first second
              ∙ ap (λ l. store xs offset l) whole)
            (λ e f p.
              AgreeOutside-trans xs (store xs offset first) (contents f) offset (length input)
                (AgreeOutside-wider _ _ _ _ _ _ (AgreeOutside-store xs offset first) (omega arith)
                  (omega (arith, total)))
                (AgreeOutside-wider _ _ _ _ _ _ p (omega (arith, at)) (omega (arith, at, total)))))
    where
      total : length input ≡ length first + length second
      total = sym (ap length whole) ∙ length-append first second

  erase_loop-Puts :
      (kind : FlashErrorKind) (fuel : ℕ) (xs : List ℕ) (offset left : ℕ)
      → left ≤ fuel
      → Puts xs offset (replicate left 0xFF) (erase_loop sys g interrupts kind fuel offset left)
  unfolding erase_loop
  erase_loop-Puts kind zero xs offset left enough = pure-Ensures _ tt (λ f h.
      h
      ∙ sym (
          all xs offset (replicate left 0xFF)
            (omega (arith, enough, length-replicate {A = ℕ} left 0xFF))))
  erase_loop-Puts kind (suc fuel) xs offset left enough =
      if-Ensures (left == 0)
        (λ e. pure-Ensures _ tt (λ f h.
          h
          ∙ sym (
              all xs offset (replicate left 0xFF)
                (ground (arith, e, length-replicate {A = ℕ} left 0xFF)))))
        (λ e.
          two_parts xs offset (offset + min left 4096) (replicate (min left 4096) 0xFF)
            (replicate (left - min left 4096) 0xFF) (replicate left 0xFF)
            (replicate-add (min left 4096) (left - min left 4096) 0xFF
              ∙ ap (λ (n : ℕ). replicate n 0xFF)
                  (let s : min left 4096 + (left - min left 4096) ≡ left = omega arith in s))
            (omega (arith, length-replicate {A = ℕ} (min left 4096) 0xFF))
            (on_file-Ensures
              (λ f. AgreeOutside offset (length (replicate (min left 4096) 0xFF)) xs (contents f))
              kind Operation.write
              (pwrite_exact-Ensures sys posix (min left 4096 + interrupts) xs offset
                (replicate (min left 4096) 0xFF)))
            (erase_loop-Puts kind fuel (store xs offset (replicate (min left 4096) 0xFF))
              (offset + min left 4096) (left - min left 4096) (ground (arith, e, enough))))

  program_loop-Puts :
      (unit_pos : 0 < g.program_size) (fuel : ℕ) (xs : List ℕ) (offset : ℕ) (input : List ℕ)
      → length input ≤ fuel
      → length input % g.program_size ≡ 0
      → Puts xs offset input (program_loop sys g interrupts fuel offset input)
  unfolding program_loop
  program_loop-Puts unit_pos zero xs offset input enough whole =
      pure-Ensures _ tt (λ f h. h ∙ sym (all xs offset input (omega (arith, enough))))
  program_loop-Puts unit_pos (suc fuel) xs offset input enough whole =
      if-Ensures (length input == 0)
        (λ e. pure-Ensures _ tt (λ f h. h ∙ sym (all xs offset input (ground (arith, e)))))
        (λ e.
          >>=-Ensures (λ _. Has sys posix xs)
            (adapt
              (on_file-Ensures (Has sys posix xs) FlashErrorKind.io Operation.read (
                pread_exact-Ensures sys posix (g.program_size + interrupts) xs offset
                  g.program_size))
              (λ f h. h) (λ _ f h. h.1) (λ x f h. untouched sys posix xs offset (length input) f h))
            (λ current.
              if-Ensures (not (only_clears current (take g.program_size input)))
                (λ _. fail-Ensures _ (λ f h. untouched sys posix xs offset (length input) f h))
                (λ _.
                  let full : g.program_size ≤ length input =
                    at_least_a_unit (length input) g.program_size (ground (arith, e)) whole in
                  let block : length (take g.program_size input) ≡ g.program_size =
                    omega (arith, length-take g.program_size input, full) in
                  two_parts xs offset (offset + g.program_size) (take g.program_size input)
                    (drop g.program_size input) input (take-drop g.program_size input)
                    (omega (arith, block))
                    (on_file-Ensures
                      (λ f.
                        AgreeOutside offset (length (take g.program_size input)) xs (contents f))
                      FlashErrorKind.io Operation.write
                      (pwrite_exact-Ensures sys posix
                        (length (take g.program_size input) + interrupts) xs offset
                        (take g.program_size input)))
                    (program_loop-Puts unit_pos fuel (store xs offset (take g.program_size input))
                      (offset + g.program_size) (drop g.program_size input)
                      (omega (arith, length-drop g.program_size input, enough, full, unit_pos))
                      (ap (λ (n : ℕ). n % g.program_size) (length-drop g.program_size input)
                        ∙ sym (mod-eq-sub-mod full)
                        ∙ whole)))))

  read-Ensures :
      (xs : List ℕ) (offset : ℕ) (output : Span ℕ)
      → Ensures
          (Has sys posix xs)
          (read sys g interrupts offset output)
          (λ bytes f. (bytes ≡ slice xs offset (Span.size output)) × Has sys posix xs f)
          (λ _. Has sys posix xs)
  unfolding read
  read-Ensures xs offset output =
      if-Ensures (not (Span.valid output)) (λ _. fail-Ensures _ (λ f h. h))
        (λ _.
          if-Ensures (not (in_bounds sys g interrupts offset (Span.size output)))
            (λ _. fail-Ensures _ (λ f h. h))
            (λ _.
              if-Ensures (not (aligned sys g interrupts offset (Span.size output) g.read_size))
                (λ _. fail-Ensures _ (λ f h. h))
                (λ _.
                  if-Ensures (Span.empty output)
                    (λ e.
                      pure-Ensures _ []
                        (λ f h. (none xs offset (Span.size output) (ground (arith, e)), h)))
                    (λ _. on_file-Ensures (Has sys posix xs) FlashErrorKind.io Operation.read (
                      pread_exact-Ensures sys posix (Span.size output + interrupts) xs offset
                        (Span.size output))))))

  module _ (ok : IsFlash sys g interrupts) where
    pub program-Puts :
        (xs : List ℕ) (offset : ℕ) (input : List ℕ)
        → Puts xs offset input (program sys g interrupts offset (Span.view input))
    unfolding program aligned
    program-Puts xs offset input =
        if-Ensures (not (in_bounds sys g interrupts offset (length input)))
          (λ _. fail-Ensures _ (λ f h. untouched sys posix xs offset (length input) f h))
          (λ _.
            if-Ensures (not (aligned sys g interrupts offset (length input) g.program_size))
              (λ _. fail-Ensures _ (λ f h. untouched sys posix xs offset (length input) f h))
              (λ e.
                program_loop-Puts ok.program_pos (length input) xs offset input (omega arith)
                  (ground (arith, e))))

    erase-Puts :
        (xs : List ℕ) (offset size : ℕ)
        → Puts xs offset (replicate size 0xFF) (erase sys g interrupts offset size)
    unfolding erase
    erase-Puts xs offset size =
        if-Ensures (not (in_bounds sys g interrupts offset size))
          (λ _. fail-Ensures _ (λ f h. untouched sys posix xs offset _ f h))
          (λ _.
            if-Ensures (not (aligned sys g interrupts offset size g.erase_size))
              (λ _. fail-Ensures _ (λ f h. untouched sys posix xs offset _ f h))
              (λ e. erase_loop-Puts FlashErrorKind.erase size xs offset size (omega arith)))

    -- On a file whose calls obey POSIX, however they split their work and wherever they are
    -- interrupted or fail, the file-backed flash is lawful: its reads give the contents, and programming and
    -- erasing put their bytes, or fail and have changed no byte outside of their range.
    pub nor_flash-IsLawful : IsLawful contents (nor_flash sys g interrupts)
    unfolding nor_flash sync
    nor_flash-IsLawful = record {
      reads = λ offset size f.
          read_out offset size f (read sys g interrupts offset (Span.view (replicate size 0)) f)
            ((read-Ensures (contents f) offset (Span.view (replicate size 0))).apply f refl);
      programs = λ offset input f erased.
          program_out offset input f (program sys g interrupts offset (Span.view input) f)
            ((program-Puts (contents f) offset input).apply f refl);
      erases = λ offset size f.
          erase_out offset size f (erase sys g interrupts offset size f)
            ((erase-Puts (contents f) offset size).apply f refl);
      syncs = λ f. posix.fdatasyncs f;
    }
      where
        kind_of : FlashError → FlashErrorKind
        kind_of e = e.kind

        read_out :
            (offset size : ℕ) (f : F) (out : Result (List ℕ) FlashError × F)
            → Post
                (λ bytes f'.
                  (bytes ≡ slice (contents f) offset (length (replicate {A = ℕ} size 0)))
                  × Has sys posix (contents f) f')
                (λ _. Has sys posix (contents f))
                out
            → ReadOutcome contents offset size f (map_error kind_of out.0, out.1)
        read_out offset size f (success bytes, f') p = (
          p.0 ∙ ap (λ (n : ℕ). slice (contents f) offset n) (length-replicate {A = ℕ} size 0),
          p.1,
        )
        read_out offset size f (failure e, f') p = p

        program_out :
            (offset : ℕ) (input : List ℕ) (f : F) (out : Result Unit FlashError × F)
            → Post
                (λ _. Has sys posix (store (contents f) offset input))
                (λ _ f'. AgreeOutside offset (length input) (contents f) (contents f'))
                out
            → ProgramOutcome contents offset input f (map_error kind_of out.0, out.1)
        program_out offset input f (success _, f') p = p
        program_out offset input f (failure e, f') p = p

        erase_out :
            (offset size : ℕ) (f : F) (out : Result Unit FlashError × F)
            → Post
                (λ _. Has sys posix (store (contents f) offset (replicate size 0xFF)))
                (λ _ f'.
                  AgreeOutside offset
                    (length (replicate {A = ℕ} size 0xFF))
                    (contents f)
                    (contents f'))
                out
            → EraseOutcome contents offset size f (map_error kind_of out.0, out.1)
        erase_out offset size f (success _, f') p = p
        erase_out offset size f (failure e, f') p =
            subst (λ (n : ℕ). AgreeOutside offset n (contents f) (contents f'))
              (length-replicate {A = ℕ} size 0xFF) p
