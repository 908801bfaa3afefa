-- ===== src/Foundation/Action/Rules.antt =====
-- Contracts of calls. `Ensures P m R F`: begun in a state with `P`, the call `m` ends with `R` if it
-- succeeds, which speaks of its value and the state, and with `F` if it fails.
use ecu_drivers.Prelude.{◌≡◌, refl, subst, Bool, true, false, if◌then◌else◌}
use ecu_drivers.Foundation.Result.{Result, success, failure}
use ecu_drivers.Foundation.Action.{Action, pure, fail, get_state, modify, ◌>>=◌, on_error}

abbrev pub Post : {W E A : Type 0} → (A → W → Type 0) → (E → W → Type 0) → Result A E × W → Type 0
Post R F (success a, w) = R a w
Post R F (failure e, w) = F e w

pub record Ensures {W E A : Type 0} (P : W → Type 0) (m : Action W E A) (R : A → W → Type 0)
    (F : E → W → Type 0) : Type 0 where
  pub apply : (w : W) → P w → Post R F (m w)

module _ {W E : Type 0} {F : E → W → Type 0} where
  pub pure-Ensures :
      {A : Type 0} {P : W → Type 0} (R : A → W → Type 0) (a : A)
      → ((w : W) → P w → R a w)
      → Ensures P (pure {W = W} {E = E} a) R F
  unfolding pure
  pure-Ensures R a h = record { apply = h }

  pub fail-Ensures :
      {A : Type 0} {P : W → Type 0} {R : A → W → Type 0} (e : E)
      → ((w : W) → P w → F e w)
      → Ensures P (fail {W = W} {E = E} {A = A} e) R F
  unfolding fail
  fail-Ensures e h = record { apply = h }

  pub modify-Ensures :
      {P : W → Type 0} {R : Unit → W → Type 0} (f : W → W)
      → ((w : W) → P w → R tt (f w))
      → Ensures P (modify {W = W} {E = E} f) R F
  unfolding modify
  modify-Ensures f h = record { apply = h }

  pub get_state-Ensures :
      {P : W → Type 0} → Ensures P (get_state {W = W} {E = E}) (λ v w. (v ≡ w) × P w) F
  unfolding get_state
  get_state-Ensures = record { apply = λ w h. (refl, h) }

  pub >>=-Ensures :
      {A B : Type 0} {P : W → Type 0} (Q : A → W → Type 0) {R : B → W → Type 0} {m : Action W E A}
      {f : A → Action W E B}
      → Ensures P m Q F
      → ((a : A) → Ensures (Q a) (f a) R F)
      → Ensures P (m >>= f) R F
  unfolding ◌>>=◌
  >>=-Ensures {A = A} {B = B} Q {R = R} {m = m} {f = f} first later = record {
    apply = λ w h. go (m w) (first.apply w h);
  }
    where
      go :
          (out : Result A E × W)
          → Post Q F out
          → Post {E = E} R F (elim out.0 [ success a ↦ f a out.1 | failure e ↦ (failure e, out.1) ])
      go (success a, w) h = (later a).apply w h
      go (failure e, w) h = h

  pub if-Ensures :
      {A : Type 0} {P : W → Type 0} {R : A → W → Type 0} (b : Bool) {x y : Action W E A}
      → (b ≡ true → Ensures P x R F)
      → (b ≡ false → Ensures P y R F)
      → Ensures P (if b then x else y) R F
  if-Ensures true h k = h refl
  if-Ensures false h k = k refl

  pub on_error-Ensures :
      {A : Type 0} {P : W → Type 0} {R : A → W → Type 0} {m : Action W E A} (cleanup : W → W)
      (G : E → W → Type 0)
      → Ensures P m R G
      → ((e : E) (w : W) → G e w → F e (cleanup w))
      → Ensures P (on_error m cleanup) R F
  unfolding on_error
  on_error-Ensures {A = A} {R = R} {m = m} cleanup G h k = record {
    apply = λ w p. go (m w) (h.apply w p);
  }
    where
      go :
          (out : Result A E × W)
          → Post R G out
          → Post R F (elim out.0 [
            | success a ↦ (success a, out.1)
            | failure e ↦ (failure e, cleanup out.1)
          ])
      go (success a, w) p = p
      go (failure e, w) p = k e w p

  -- A contract says more where less is asked for and more is known.
  pub weaken :
      {A : Type 0} {P P' : W → Type 0} {R R' : A → W → Type 0} {m : Action W E A}
      → Ensures P m R F
      → ((w : W) → P' w → P w)
      → ((a : A) (w : W) → R a w → R' a w)
      → Ensures P' m R' F
  weaken {A = A} {R = R} {R' = R'} {m = m} h pre post = record {
    apply = λ w p. go (m w) (h.apply w (pre w p));
  }
    where
      go : (out : Result A E × W) → Post R F out → Post R' F out
      go (success a, w) p = post a w p
      go (failure e, w) p = p

-- `weaken`, with more allowed of a failure too
pub adapt :
    {W E A : Type 0} {P P' : W → Type 0} {R R' : A → W → Type 0} {F F' : E → W → Type 0}
    {m : Action W E A}
    → Ensures P m R F
    → ((w : W) → P' w → P w)
    → ((a : A) (w : W) → R a w → R' a w)
    → ((e : E) (w : W) → F e w → F' e w)
    → Ensures P' m R' F'
adapt {W} {E} {A} {R = R} {R' = R'} {F = F} {F' = F'} {m = m} h pre post lost = record {
  apply = λ w p. go (m w) (h.apply w (pre w p));
}
  where
    go : (out : Result A E × W) → Post R F out → Post R' F' out
    go (success a, w) p = post a w p
    go (failure e, w) p = lost e w p

-- A contract, read off a run that succeeded, and off one that failed.
module _ {W E A : Type 0} {P : W → Type 0} {R : A → W → Type 0} {F : E → W → Type 0} where
  pub succeeds :
      {m : Action W E A} {a : A} {w w' : W} → Ensures P m R F → P w → m w ≡ (success a, w') → R a w'
  succeeds {w = w} h p e = subst (Post R F) e (h.apply w p)

  pub fails :
      {m : Action W E A} {x : E} {w w' : W} → Ensures P m R F → P w → m w ≡ (failure x, w') → F x w'
  fails {w = w} h p e = subst (Post R F) e (h.apply w p)
