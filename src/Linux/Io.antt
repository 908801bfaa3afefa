-- ===== src/Linux/Io.antt =====
-- platforms/linux/include/hal/detail/error.hpp and the positioned loops of detail/io.hpp. The
-- system calls are not part of the repository: they are a record of operations over a state of
-- their own, and so are the values of the errno macros.
use ecu_drivers.Prelude.{
  ℕ, zero, suc, ◌+◌, ◌-◌, Bool, List, [], ◌++◌, ◌==◌, length, drop, if◌then◌else◌,
}
use ecu_drivers.Foundation.Result.{Result, VoidResult}
use ecu_drivers.Foundation.Action.Rules.{Ensures}
use ecu_drivers.Foundation.Action.{Action, pure, fail, ◌>>=◌}

pub data Operation : Type 0 where
  open_file configure read write ioctl poll synchronize other : Operation

pub record Error (K : Type 0) : Type 0 where
  pub kind : K
  pub native_error : ℕ
  pub failed_operation : Operation

-- What a call that moves bytes answers: how far it came, that it was interrupted (a negative
-- count with EINTR), or another errno.
pub data Answer (A : Type 0) : Type 0 where
  moved : A → Answer A
  interrupted : Answer A
  failed : ℕ → Answer A

-- what `fstat` tells of a file
pub record Metadata : Type 0 where
  pub is_regular : Bool
  pub size : ℕ

pub record System (F : Type 0) : Type 0 where
  pub eio : ℕ
  pub einval : ℕ
  pub eintr : ℕ
  -- a position and the number of bytes wanted
  pub pread : ℕ → ℕ → F → Answer (List ℕ) × F
  -- a position and the bytes
  pub pwrite : ℕ → List ℕ → F → Answer ℕ × F
  pub fdatasync : F → VoidResult ℕ × F
  -- whether the file is to be created
  pub open_path : Bool → F → VoidResult ℕ × F
  pub fstat : F → Result Metadata ℕ × F
  pub ftruncate : ℕ → F → VoidResult ℕ × F
  pub close : F → F

-- a system call, and what is done with its answer
abbrev pub call : {F A B : Type 0} → (F → Answer A × F) → (Answer A → Action F ℕ B) → Action F ℕ B
call m next f = let (answer, f') = m f in next answer f'

pub call-Ensures :
    {F A B : Type 0} {P : F → Type 0} {R : B → F → Type 0} {L : ℕ → F → Type 0}
    (Q : Answer A → F → Type 0) {m : F → Answer A × F} {next : Answer A → F → Result B ℕ × F}
    → ((f : F) → P f → Q (m f).0 (m f).1)
    → ((a : Answer A) → Ensures (Q a) (next a) R L)
    → Ensures P (call m next) R L
call-Ensures Q {m} h k = record { apply = λ f p. (k (m f).0).apply (m f).1 (h f p) }

module _ {F : Type 0} (sys : System F) where
  -- Each round takes a byte or is an interruption. A loop without a round left is one that would
  -- still be retrying.
  unfoldable pub pread_exact : ℕ → ℕ → ℕ → Action F ℕ (List ℕ)
  pread_exact zero offset size = if size == 0 then pure [] else fail sys.eintr
  pread_exact (suc fuel) offset size =
      let round = call (sys.pread offset size) (λ answer. elim answer [
        | moved bytes ↦
            let rest = pread_exact fuel (offset + length bytes) (size - length bytes) in
            if length bytes == 0 then fail sys.eio else (rest >>= λ later. pure (bytes ++ later))
        | interrupted ↦ pread_exact fuel offset size
        | failed e ↦ fail e
      ]) in
      if size == 0 then pure [] else round

  unfoldable pub pwrite_exact : ℕ → ℕ → List ℕ → Action F ℕ Unit
  pwrite_exact zero offset data_left = if length data_left == 0 then pure tt else fail sys.eintr
  pwrite_exact (suc fuel) offset data_left =
      let round = call (sys.pwrite offset data_left) (λ answer. elim answer [
        | moved written ↦
            let rest = pwrite_exact fuel (offset + written) (drop written data_left) in
            if written == 0 then fail sys.eio else rest
        | interrupted ↦ pwrite_exact fuel offset data_left
        | failed e ↦ fail e
      ]) in
      if length data_left == 0 then pure tt else round
