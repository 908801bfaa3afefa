-- ===== src/Linux/Nv/Tests.antt =====
-- A flash of four bytes in a file that is a list of bytes and takes two bytes at a time.
use ecu_drivers.Prelude.{
  ℕ, zero, suc, ◌≡◌, refl, ap, true, inl, inr, List, [], ◌∷◌, arith, length, slice, slice_found,
  store, take, min, replicate, get_or, ◌+◌, ◌≤◌,
}
use ecu_drivers.Prelude.Bits.{digit}
use ecu_drivers.Foundation.Result.{success, failure}
use ecu_drivers.Foundation.Action.{pure, fail, ◌>>=◌}
use ecu_drivers.Foundation.Span
use ecu_drivers.Nv.Contract.{FlashErrorKind, FlashGeometry}
use ecu_drivers.Nv.Lawful.{IsLawful}
use ecu_drivers.Linux.Io.{Answer, Operation, System, moved, pread_exact, pwrite_exact}
use ecu_drivers.Linux.Terminates.{IsSettling, Settles, exact_terminates}
use ecu_drivers.Linux.Nv.{
  IsFlash, error, nor_flash, only_clears, program, program_loop, in_bounds, aligned,
}
use ecu_drivers.Linux.Nv.Exact.{IsPosix}
use ecu_drivers.Linux.Nv.Lawful.{nor_flash-IsLawful}
use ecu_drivers.Linux.Nv.Refuse.{Request, perform, perform_refuses}
use ecu_drivers.Linux.Nv.Clears.{program_clears}

abbrev short : System (List ℕ)
short = record {
  eio = 5;
  einval = 22;
  eintr = 4;
  pread = λ offset size s. (moved (slice s offset size), s);
  pwrite = λ offset input s.
      (moved (min (length input) 2), store s offset (take (min (length input) 2) input));
  fdatasync = λ s. (success tt, s);
  open_path = λ create s. (success tt, s);
  fstat = λ s. (success (record { is_regular = true; size = length s }), s);
  ftruncate = λ size s. (success tt, replicate size 0);
  close = λ s. s;
}

abbrev bytes_of : List ℕ → List ℕ
bytes_of s = s

short-IsPosix : IsPosix bytes_of short
short-IsPosix = record {
  preads = λ offset size s. ((slice_found s offset size).0, (slice_found s offset size).1, refl);
  pwrites = λ offset input s. (omega arith, refl);
  fdatasyncs = λ s. refl;
}

abbrev four : FlashGeometry
four = record { capacity = 4; read_size = 1; program_size = 1; erase_size = 2 }

four-IsFlash : IsFlash short four 3
four-IsFlash = record {
  capacity_pos = omega arith;
  program_pos = omega arith;
  erase_pos = omega arith;
  read_pos = omega arith;
  whole_sectors = refl;
  whole_units = refl;
  whole_reads = refl;
}

nor_flash-IsLawful_example : IsLawful bytes_of (nor_flash short four 3)
nor_flash-IsLawful_example = nor_flash-IsLawful short short-IsPosix four 3 four-IsFlash

perform_refuses_example :
    perform short four 3 Request.erasing 1 (Span.view (0 ∷ 0 ∷ [])) (replicate 4 0xFF)
    ≡ (failure (error 22 FlashErrorKind.not_aligned Operation.write), replicate 4 0xFF)
perform_refuses_example =
    perform_refuses short four 3 Request.erasing 1 (Span.view (0 ∷ 0 ∷ []))
      FlashErrorKind.not_aligned (replicate 4 0xFF) refl
      (inr (omega arith, inl (omega arith), refl))

abbrev programmed : List ℕ
programmed = (program short four 3 1 (Span.view (7 ∷ 8 ∷ [])) (replicate 4 0xFF)).1

succeeded : {A B : Type 0} (a : A) (p : A × B) → p.0 ≡ a → p ≡ (a, p.1)
succeeded {A} {B} a p e = ap {B = A × B} (λ x. (x, p.1)) e

programs :
    program short four 3 1 (Span.view (7 ∷ 8 ∷ [])) (replicate 4 0xFF) ≡ (success tt, programmed)
unfolding slice store program program_loop in_bounds aligned pread_exact pwrite_exact only_clears
    ◌>>=◌ pure fail
programs =
    succeeded (success tt) (program short four 3 1 (Span.view (7 ∷ 8 ∷ [])) (replicate 4 0xFF)) refl

program_clears_example :
    (programmed ≡ store (replicate 4 0xFF) 1 (7 ∷ 8 ∷ []))
    × (get_or programmed (1 + 1) 0 ≡ get_or (7 ∷ 8 ∷ []) 1 0)
    × (digit 3 (get_or programmed (1 + 1) 0) ≤ digit 3 (get_or (replicate 4 0xFF) (1 + 1) 0))
program_clears_example =
    program_clears short short-IsPosix four 3 four-IsFlash 1 (7 ∷ 8 ∷ []) (replicate 4 0xFF)
      programmed 1 3 (omega arith) programs (omega arith)

-- the same file behind calls that a number of pending signals interrupts first
abbrev stormy_pread : ℕ → ℕ → ℕ × List ℕ → Answer (List ℕ) × (ℕ × List ℕ)
stormy_pread offset size (zero, s) = (moved (slice s offset size), (0, s))
stormy_pread offset size (suc signals, s) = (Answer.interrupted, (signals, s))

abbrev stormy_pwrite : ℕ → List ℕ → ℕ × List ℕ → Answer ℕ × (ℕ × List ℕ)
stormy_pwrite offset input (zero, s) =
    (moved (min (length input) 2), (0, store s offset (take (min (length input) 2) input)))
stormy_pwrite offset input (suc signals, s) = (Answer.interrupted, (signals, s))

abbrev stormy : System (ℕ × List ℕ)
stormy = record {
  eio = 5;
  einval = 22;
  eintr = 4;
  pread = stormy_pread;
  pwrite = stormy_pwrite;
  fdatasync = λ s. (success tt, s);
  open_path = λ create s. (success tt, s);
  fstat = λ s. (success (record { is_regular = true; size = length s.1 }), s);
  ftruncate = λ size s. (success tt, (s.0, replicate size 0));
  close = λ s. s;
}

abbrev signals_of : ℕ × List ℕ → ℕ
signals_of s = s.0

stormy-IsSettling : IsSettling signals_of stormy
stormy-IsSettling = record { preads = preads; pwrites = pwrites }
  where
    preads : (offset size : ℕ) (f : ℕ × List ℕ) → Settles signals_of f (stormy_pread offset size f)
    preads offset size (zero, s) = omega arith
    preads offset size (suc signals, s) = omega arith

    pwrites :
        (offset : ℕ) (input : List ℕ) (f : ℕ × List ℕ)
        → Settles signals_of f (stormy_pwrite offset input f)
    pwrites offset input (zero, s) = omega arith
    pwrites offset input (suc signals, s) = omega arith

abbrev interrupted_twice : ℕ × List ℕ
interrupted_twice = (2, replicate 4 0xFF)

exact_terminates_example :
    (pread_exact stormy 11 1 2 interrupted_twice ≡ pread_exact stormy 4 1 2 interrupted_twice)
    × (pwrite_exact stormy 12 1 (7 ∷ 8 ∷ 9 ∷ []) interrupted_twice
        ≡ pwrite_exact stormy 5 1 (7 ∷ 8 ∷ 9 ∷ []) interrupted_twice)
exact_terminates_example =
    exact_terminates signals_of stormy stormy-IsSettling 7 1 2 (7 ∷ 8 ∷ 9 ∷ []) interrupted_twice
