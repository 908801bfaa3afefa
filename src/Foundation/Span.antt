-- ===== src/Foundation/Span.antt =====
-- include/hal/foundation/span.hpp: `span<T>`, a pointer and a count. A span over a null pointer
-- claims a number of elements that it does not have; any other shows the elements themselves.
use ecu_drivers.Prelude.{ℕ, ◌≡◌, refl, Bool, true, List, [], arith, ◌==◌, length}

pub data Span (A : Type 0) : Type 0 where
  null : ℕ → Span A
  view : List A → Span A

module _ {A : Type 0} where
  abbrev pub size : Span A → ℕ
  size (null n) = n
  size (view xs) = length xs

  -- `size_ == 0U || data_ != nullptr`
  abbrev pub valid : Span A → Bool
  valid (null n) = n == 0
  valid (view xs) = true

  abbrev pub empty : Span A → Bool
  empty s = size s == 0

  -- what a loop over `begin() .. end()` of a valid span visits
  abbrev pub elements : Span A → List A
  elements (null n) = []
  elements (view xs) = xs

  pub length-elements : (s : Span A) → valid s ≡ true → length (elements s) ≡ size s
  length-elements (null n) h = ground arith
  length-elements (view xs) h = refl
