-- ===== src/Spi/Trace/Rules.antt =====
-- The contracts of the logged calls.
use ecu_drivers.Prelude.{◌≡◌, refl, ◌∷◌}
use ecu_drivers.Foundation.Result.{Result, success, failure, map_error}
use ecu_drivers.Foundation.Action.Rules.{Ensures, Post}
use ecu_drivers.Spi.Trace.{Event, Log, World, call, emit}

module _ {D E : Type 0} {P : World D → Type 0} where
  pub call-Ensures :
      {A X : Type 0} {R : A → World D → Type 0} {F : E → World D → Type 0} (event : Event)
      (answer : Log → Result A X) (wrap : X → E)
      → ((a : A) (w : World D)
          → P w
          → answer (event ∷ w.log) ≡ success a
          → R a (record w { log = event ∷ w.log }))
      → ((x : X) (w : World D) → P w → F (wrap x) (record w { log = event ∷ w.log }))
      → Ensures P (call event answer wrap) R F
  unfolding call
  call-Ensures {A = A} {X = X} {R = R} {F = F} event answer wrap good bad = record {
    apply = λ w p. go (answer (event ∷ w.log)) w p refl;
  }
    where
      go :
          (r : Result A X) (w : World D)
          → P w
          → answer (event ∷ w.log) ≡ r
          → Post R F (map_error wrap r, record w { log = event ∷ w.log })
      go (success a) w p e = good a w p e
      go (failure x) w p e = bad x w p

  pub emit-Ensures :
      {R : Unit → World D → Type 0} {F : E → World D → Type 0} (event : Event)
      → ((w : World D) → P w → R tt (record w { log = event ∷ w.log }))
      → Ensures P (emit {E = E} event) R F
  unfolding emit
  emit-Ensures event h = record { apply = h }
