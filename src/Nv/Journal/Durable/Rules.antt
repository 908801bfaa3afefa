-- ===== src/Nv/Journal/Durable/Rules.antt =====
-- Contracts of calls on a lawful flash, in a state whose fields and flash contents are known.
use ecu_drivers.Prelude.{
  ℕ, ◌≡◌, refl, ◌∙◌, sym, ap, subst, Bool, true, false, List, length, replicate, slice, store,
  if◌then◌else◌,
}
use ecu_drivers.Foundation.Result.{Result, success, failure, map_error}
use ecu_drivers.Foundation.Action.{get_state, pure, ◌>>=◌, ◌>>◌}
use ecu_drivers.Foundation.Action.Rules.{Post, Ensures, modify-Ensures, >>=-Ensures}
use ecu_drivers.Nv.Contract.{NorFlash, FlashErrorKind}
use ecu_drivers.Nv.Lawful.{AgreeOutside, IsLawful, ReadOutcome, ProgramOutcome}
use ecu_drivers.Nv.Journal.Error.{JournalErrorSource, JournalError, flash_error}
use ecu_drivers.Nv.Journal.Layout.{Config}
use ecu_drivers.Nv.Journal.Monad.{JournalMemory, World, JournalAction, get_memory, assign}
use ecu_drivers.Nv.Journal.Storage.{read_array, program_array}

-- A test whose answer is known takes its branch.
module _ {W E A : Type 0} {P : W → Type 0} {R : A → W → Type 0} {F : E → W → Type 0} (b : Bool)
    (x y : W → Result A E × W) where
  pub if_true-Ensures : b ≡ true → Ensures P x R F → Ensures P (if b then x else y) R F
  if_true-Ensures e h = rw e h

  pub if_false-Ensures : b ≡ false → Ensures P y R F → Ensures P (if b then x else y) R F
  if_false-Ensures e h = rw e h

-- What is known in any state is used.
pub assuming :
    {W E A : Type 0} {K : Type 0} {P : W → Type 0} {R : A → W → Type 0} {F : E → W → Type 0}
    {m : W → Result A E × W}
    → (K → Ensures P m R F)
    → Ensures (λ w. K × P w) m R F
assuming h = record { apply = λ w p. (h p.0).apply w p.1 }

-- A value that is known is put where it is used.
pub known_then :
    {W E A B : Type 0} {P : W → Type 0} {R : B → W → Type 0} {F : E → W → Type 0} (a : A)
    (f : A → W → Result B E × W)
    → Ensures P (f a) R F
    → (v : A) → Ensures (λ w. (v ≡ a) × P w) (f v) R F
known_then {R = R} {F = F} a f h v = record {
  apply = λ w p. subst (λ b. Post R F (f b w)) (sym p.0) (h.apply w p.1);
}

module _ {S : Type 0} (contents : S → List ℕ) where
  -- the contents and the fields are these
  abbrev pub Is : List ℕ → JournalMemory → World S → Type 0
  Is xs m w = (contents w.flash ≡ xs) × (w.memory ≡ m)

  -- the error is the flash's, and the contents are these
  abbrev pub FlashFails : List ℕ → JournalError → World S → Type 0
  FlashFails xs e w = (e.source ≡ JournalErrorSource.flash) × (contents w.flash ≡ xs)

  module _ {xs : List ℕ} {m : JournalMemory} {B : Type 0} {R : B → World S → Type 0}
      {F : JournalError → World S → Type 0} where
    pub get_memory_then :
        (f : JournalMemory → JournalAction S B)
        → Ensures (Is xs m) (f m) R F
        → Ensures (Is xs m) (get_memory >>= f) R F
    unfolding ◌>>=◌ get_state pure
    get_memory_then f h = record {
      apply = λ w p. subst (λ k. Post R F (f k w)) (sym p.1) (h.apply w p);
    }

    pub assign_then :
        (f : JournalMemory → JournalMemory) {later : JournalAction S B}
        → Ensures (Is xs (f m)) later R F
        → Ensures (Is xs m) (assign f >> later) R F
    assign_then f h =
        >>=-Ensures (λ _. Is xs (f m)) (modify-Ensures _ (λ w p. (p.0, ap f p.1))) (λ _. h)

    module _ (c : Config) (flash : NorFlash S) (law : IsLawful contents flash) where
      pub read_then :
          (offset size : ℕ) (f : List ℕ → JournalAction S B)
          → ((e : JournalError) (w : World S) → FlashFails xs e w → F e w)
          → Ensures (Is xs m) (f (slice xs offset size)) R F
          → Ensures (Is xs m) (read_array c flash offset size >>= f) R F
      unfolding read_array
      read_then offset size f lose h =
          >>=-Ensures (λ bytes w. (bytes ≡ slice xs offset size) × Is xs m w)
            (record {
              apply =
                  λ w p. go w p (flash.read offset size w.flash) (law.reads offset size w.flash);
            })
            (known_then (slice xs offset size) f h)
        where
          go :
              (w : World S)
              → Is xs m w
              → (out : Result (List ℕ) FlashErrorKind × S)
              → ReadOutcome contents offset size w.flash out
              → Post
                  (λ bytes w. (bytes ≡ slice xs offset size) × Is xs m w)
                  F
                  (map_error flash_error out.0, record w { flash = out.1 })
          go w p (success bytes, s) o = (o.0 ∙ ap (λ l. slice l offset size) p.0, (o.1 ∙ p.0, p.1))
          go w p (failure e, s) o = lose (flash_error e) (record w { flash = s }) (refl, o ∙ p.0)

  module _ {xs : List ℕ} {m : JournalMemory} {F : JournalError → World S → Type 0} (c : Config)
      (flash : NorFlash S) (law : IsLawful contents flash) where
    pub program_array-Ensures :
        (offset : ℕ) (input : List ℕ)
        → slice xs offset (length input) ≡ replicate (length input) 0xFF
        → ((e : JournalError) (w : World S)
            → w.memory ≡ m
            → AgreeOutside offset (length input) xs (contents w.flash)
            → F e w)
        → Ensures
            (Is xs m)
            (program_array c flash offset input)
            (λ _. Is (store xs offset input) m)
            F
    unfolding program_array
    program_array-Ensures offset input erased lose = record {
      apply = λ w p. go w p (flash.program offset input w.flash) (
          law.programs offset input w.flash (
            subst (λ l. slice l offset (length input) ≡ replicate (length input) 0xFF) (sym p.0)
              erased));
    }
      where
        go :
            (w : World S)
            → Is xs m w
            → (out : Result Unit FlashErrorKind × S)
            → ProgramOutcome contents offset input w.flash out
            → Post
                (λ (_ : Unit). Is (store xs offset input) m)
                F
                (map_error flash_error out.0, record w { flash = out.1 })
        go w p (success _, s) o = (o ∙ ap (λ l. store l offset input) p.0, p.1)
        go w p (failure e, s) o =
            lose (flash_error e) (record w { flash = s }) p.1
              (subst (λ l. AgreeOutside offset (length input) l (contents s)) p.0 o)
