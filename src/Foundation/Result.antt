-- ===== src/Foundation/Result.antt =====
-- include/hal/foundation/result.hpp: `result<T, E>`, a value or an error. The placement of the two
-- in one union and their destruction are what a data type with two constructors means.
use ecu_drivers.Prelude.{Bool, true, false}

pub data Result (A E : Type 0) : Type 0 where
  success : A → Result A E
  failure : E → Result A E

-- `result<void, E>`
abbrev pub VoidResult : Type 0 → Type 0
VoidResult E = Result (Unit {0}) E

-- `has_value()` and `operator bool()`
abbrev pub has_value : {A E : Type 0} → Result A E → Bool
has_value (success a) = true
has_value (failure e) = false

abbrev pub map_error : {A E F : Type 0} → (E → F) → Result A E → Result A F
map_error f (success a) = success a
map_error f (failure e) = failure (f e)
