-- ===== src/Adapters/ActiveLow.antt =====
-- include/hal/adapters/gpio_active_low.hpp, `ActiveLowPin`: a pin with its levels and edges turned
-- round. The pin is a template parameter: a record of its operations over a state of its own.
use ecu_drivers.Prelude.{Bool, true, false, not, ◌&&◌, ◌||◌, ◌≡◌, refl, ◌∙◌, sym, subst, ap}
use ecu_drivers.Foundation.Result.{Result, VoidResult, success, failure}
use ecu_drivers.Spi.Contract.{Level, PinErrorKind}

-- `edge` of include/hal/contracts/gpio.hpp
pub data Edge : Type 0 where
  rising falling both : Edge

pub record Pin (S : Type 0) : Type 0 where
  pub write : Level → S → VoidResult PinErrorKind × S
  pub output_latch : S → Result Level PinErrorKind × S
  pub read : S → Result Level PinErrorKind × S
  pub configure_edge : Edge → S → VoidResult PinErrorKind × S
  pub take_event : S → Bool × S

abbrev pub invert : Level → Level
invert Level.low = Level.high
invert Level.high = Level.low

abbrev pub invert_edge : Edge → Edge
invert_edge Edge.rising = Edge.falling
invert_edge Edge.falling = Edge.rising
invert_edge Edge.both = Edge.both

abbrev pub invert_answer : Result Level PinErrorKind → Result Level PinErrorKind
invert_answer (success level) = success (invert level)
invert_answer (failure e) = failure e

-- the five methods over a pin, which make a pin again
unfoldable pub active_low : {S : Type 0} → Pin S → Pin S
active_low pin = record {
  write = λ level s. pin.write (invert level) s;
  output_latch = λ s. let (r, s') = pin.output_latch s in (invert_answer r, s');
  read = λ s. let (r, s') = pin.read s in (invert_answer r, s');
  configure_edge = λ selected s. pin.configure_edge (invert_edge selected) s;
  take_event = pin.take_event;
}

-- The volts on the line, and what a detector of each edge sees in two samples of them.
abbrev pub is_high : Level → Bool
is_high Level.low = false
is_high Level.high = true

abbrev pub fires : Edge → Bool → Bool → Bool
fires Edge.rising before after = not before && after
fires Edge.falling before after = before && not after
fires Edge.both before after = (before && not after) || (not before && after)

-- the line reads as the other level, or fails in the same way
abbrev pub Reversed : Result Level PinErrorKind → Result Level PinErrorKind → Type 0
Reversed (success seen) (success shown) = is_high shown ≡ not (is_high seen)
Reversed (failure e) (failure shown) = shown ≡ e
Reversed (success seen) (failure shown) = ⊥
Reversed (failure e) (success shown) = ⊥

invert-invert : (l : Level) → invert (invert l) ≡ l
invert-invert Level.low = refl
invert-invert Level.high = refl

invert-reverses : (l : Level) → is_high (invert l) ≡ not (is_high l)
invert-reverses Level.low = refl
invert-reverses Level.high = refl

invert_answer-Reversed : (r : Result Level PinErrorKind) → Reversed r (invert_answer r)
invert_answer-Reversed (success l) = invert-reverses l
invert_answer-Reversed (failure e) = refl

invert_edge-fires :
    (e : Edge) (before after : Bool)
    → fires (invert_edge e) (not before) (not after) ≡ fires e before after
invert_edge-fires Edge.rising true after = refl
invert_edge-fires Edge.rising false true = refl
invert_edge-fires Edge.rising false false = refl
invert_edge-fires Edge.falling true true = refl
invert_edge-fires Edge.falling true false = refl
invert_edge-fires Edge.falling false after = refl
invert_edge-fires Edge.both true true = refl
invert_edge-fires Edge.both true false = refl
invert_edge-fires Edge.both false true = refl
invert_edge-fires Edge.both false false = refl

-- On a pin whose latch answers the level that was written to it, a successful write through the
-- active-low view leaves the view's latch at that level and the pin's own at the other one. The
-- view reads the opposite of the line, with the pin's own error if it fails, and an edge that is
-- selected through it fires on the reversed line exactly when that edge is there.
pub active_low_lem :
    {S : Type 0} (pin : Pin S)
    → ((l : Level) (s s' : S)
        → pin.write l s ≡ (success tt, s')
        → (pin.output_latch s').0 ≡ success l)
    → (level : Level) (selected : Edge) (before after : Bool) (s s' : S)
    → (active_low pin).write level s ≡ (success tt, s')
    → (((active_low pin).output_latch s').0 ≡ success level)
      × Reversed (success level) (pin.output_latch s').0
      × Reversed (pin.read s').0 ((active_low pin).read s').0
      × ((other : Edge) × ((active_low pin).configure_edge selected s ≡ pin.configure_edge other s)
          × (fires other (not before) (not after) ≡ fires selected before after))
unfolding active_low
active_low_lem pin latch level selected before after s s' e = (
  ap invert_answer seen ∙ ap success (invert-invert level),
  subst (Reversed (success level)) (sym seen) (invert-reverses level),
  invert_answer-Reversed (pin.read s').0,
  (invert_edge selected, refl, invert_edge-fires selected before after),
)
  where
    seen : (pin.output_latch s').0 ≡ success (invert level)
    seen = latch (invert level) s s' e
