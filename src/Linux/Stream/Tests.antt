-- ===== src/Linux/Stream/Tests.antt =====
-- A descriptor that takes two bytes at a time.
use ecu_drivers.Prelude.{ℕ, refl, List, [], ◌∷◌, ◌++◌, arith, length, take, min}
use ecu_drivers.Linux.Io.{moved}
use ecu_drivers.Linux.Stream.{Stream, write_all}
use ecu_drivers.Linux.Stream.InOrder.{IsInOrder, SendOutcome, write_all_lem}

abbrev pairs : Stream (List ℕ)
pairs = record {
  eio = 5;
  eintr = 4;
  read = λ size s. (moved (take (min size 2) (1 ∷ 2 ∷ [])), s);
  write = λ input s. (moved (min (length input) 2), s ++ take (min (length input) 2) input);
}

abbrev sent : List ℕ → List ℕ
sent s = s

pairs-IsInOrder : IsInOrder sent pairs
pairs-IsInOrder = record { writes = λ input s. (omega arith, refl) }

write_all_lem_example : SendOutcome sent [] (7 ∷ 8 ∷ 9 ∷ []) (write_all pairs 3 (7 ∷ 8 ∷ 9 ∷ []) [])
write_all_lem_example = write_all_lem pairs pairs-IsInOrder 3 (7 ∷ 8 ∷ 9 ∷ []) []
