-- ===== src/Linux/Stream.antt =====
-- The loops without a position of platforms/linux/include/hal/detail/io.hpp, over a descriptor that
-- takes and gives bytes in order.
pub mod InOrder
mod Tests
use ecu_drivers.Prelude.{
  ℕ, zero, suc, ◌+◌, ◌-◌, ◌≤◌, ◌≡◌, refl, ◌∙◌, sym, ap, List, [], ◌∷◌, ◌++◌, ◌==◌, arith, length,
  length-append, take, drop, take-drop, if◌then◌else◌,
}
use ecu_drivers.Foundation.Result.{Result, success, failure}
use ecu_drivers.Foundation.Action.{Action, pure, fail, ◌>>=◌}
use ecu_drivers.Foundation.Action.Rules.{
  Ensures, pure-Ensures, fail-Ensures, >>=-Ensures, if-Ensures, adapt, succeeds,
}
use ecu_drivers.Linux.Io.{Answer, moved, interrupted, failed, call}

pub record Stream (F : Type 0) : Type 0 where
  pub eio : ℕ
  pub eintr : ℕ
  -- the number of bytes wanted
  pub read : ℕ → F → Answer (List ℕ) × F
  pub write : List ℕ → F → Answer ℕ × F

module _ {F : Type 0} (stream : Stream F) where
  -- Each round takes a byte or is an interruption, as in the loops with a position.
  unfoldable pub write_all : ℕ → List ℕ → Action F ℕ Unit
  write_all zero data_left = if length data_left == 0 then pure tt else fail stream.eintr
  write_all (suc fuel) data_left =
      let round = call (stream.write data_left) (λ answer. elim answer [
        | moved written ↦
            let rest = write_all fuel (drop written data_left) in
            if written == 0 then fail stream.eio else rest
        | interrupted ↦ write_all fuel data_left
        | failed e ↦ fail e
      ]) in
      if length data_left == 0 then pure tt else round

  unfoldable pub read_exact : ℕ → ℕ → Action F ℕ (List ℕ)
  read_exact zero size = if size == 0 then pure [] else fail stream.eintr
  read_exact (suc fuel) size =
      let round = call (stream.read size) (λ answer. elim answer [
        | moved bytes ↦
            let rest = read_exact fuel (size - length bytes) in
            if length bytes == 0 then fail stream.eio else (rest >>= λ later. pure (bytes ++ later))
        | interrupted ↦ read_exact fuel size
        | failed e ↦ fail e
      ]) in
      if size == 0 then pure [] else round
