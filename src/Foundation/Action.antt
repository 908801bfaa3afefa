-- ===== src/Foundation/Action.antt =====
-- Calls on mutable objects: a state goes in, a result and the new state come out. What a failed
-- call has already done stays done. The chain is shut, and read through the rules of `Rules`.
pub mod Rules
use ecu_drivers.Prelude.{Bool, if◌then◌else◌}
use ecu_drivers.Foundation.Result.{Result, success, failure}

abbrev pub Action : Type 0 → Type 0 → Type 0 → Type 0
Action W E A = W → Result A E × W

module _ {W E : Type 0} where
  unfoldable pub pure : {A : Type 0} → A → Action W E A
  pure a w = (success a, w)

  unfoldable pub fail : {A : Type 0} → E → Action W E A
  fail e w = (failure e, w)

  -- the state as it is, and a change of it
  unfoldable pub get_state : Action W E W
  get_state w = (success w, w)

  unfoldable pub modify : (W → W) → Action W E Unit
  modify f w = (success tt, f w)

  infixl 5 ◌>>=◌ ◌>>◌
  unfoldable pub ◌>>=◌ : {A B : Type 0} → Action W E A → (A → Action W E B) → Action W E B
  ◌>>=◌ m f w = let (r, w') = m w in elim r [ success a ↦ f a w' | failure e ↦ (failure e, w') ]

  abbrev pub ◌>>◌ : {A B : Type 0} → Action W E A → Action W E B → Action W E B
  m >> k = m >>= λ _. k

  -- `auto r = m(); if (!r) { cleanup(); return r; }`: what the cleanup returns is ignored
  unfoldable pub on_error : {A : Type 0} → Action W E A → (W → W) → Action W E A
  on_error m cleanup w =
      let (r, w') = m w in
      elim r [ success a ↦ (success a, w') | failure e ↦ (failure e, cleanup w') ]

  abbrev pub when : Bool → Action W E Unit → Action W E Unit
  when test m = if test then m else pure tt
