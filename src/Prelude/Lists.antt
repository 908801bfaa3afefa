-- ===== src/Prelude/Lists.antt =====
-- Lists measured and indexed by native numbers, under the library's names. `store` writes a run
-- of values at an index, as the copy loops of the source do.
pub mod Slices
use Prim.Native.Nat.{ℕ, zero, suc, ◌+◌, ◌-◌, ◌<◌, ◌≤◌, min}
use mathlib.Core.Path.{◌≡◌, refl, sym, ap, ◌∙◌}
use mathlib.Core.Logic.{◌≢◌}
use mathlib.Core.List.{List, [], ◌∷◌, ◌++◌, append-nil, append_assoc}
use native.Mathlib.Omega.{arith}

module _ {ℓ} {A : Type ℓ} where
  abbrev pub length : List A → ℕ
  length [] = 0
  length (x ∷ xs) = suc (length xs)

  abbrev pub get_or : List A → ℕ → A → A
  get_or [] i d = d
  get_or (x ∷ xs) zero d = x
  get_or (x ∷ xs) (suc i) d = get_or xs i d

  -- A write out of bounds changes nothing.
  abbrev pub set : List A → ℕ → A → List A
  set [] i v = []
  set (x ∷ xs) zero v = v ∷ xs
  set (x ∷ xs) (suc i) v = x ∷ set xs i v

  abbrev pub take : ℕ → List A → List A
  take zero xs = []
  take (suc n) [] = []
  take (suc n) (x ∷ xs) = x ∷ take n xs

  abbrev pub drop : ℕ → List A → List A
  drop zero xs = xs
  drop (suc n) [] = []
  drop (suc n) (x ∷ xs) = drop n xs

  abbrev pub replicate : ℕ → A → List A
  replicate zero a = []
  replicate (suc n) a = a ∷ replicate n a

  -- `for (i) destination[offset + i] = values[i];`
  unfoldable pub store : List A → ℕ → List A → List A
  store xs i [] = xs
  store xs i (v ∷ vs) = store (set xs i v) (i + 1) vs

  -- the values at `offset .. offset + count`
  unfoldable pub slice : List A → ℕ → ℕ → List A
  slice xs i n = take n (drop i xs)

module _ {ℓ} {A : Type ℓ} where
  pub length-append : (xs ys : List A) → length (xs ++ ys) ≡ length xs + length ys
  length-append [] ys = omega arith
  length-append (x ∷ xs) ys = omega (arith, length-append xs ys)

  pub length-set : (xs : List A) (i : ℕ) (v : A) → length (set xs i v) ≡ length xs
  length-set [] i v = refl
  length-set (x ∷ xs) zero v = refl
  length-set (x ∷ xs) (suc i) v = ap suc (length-set xs i v)

  pub get_or-set_self :
      (xs : List A) (i : ℕ) (v d : A) → i < length xs → get_or (set xs i v) i d ≡ v
  get_or-set_self [] i v d h = absurd (omega arith)
  get_or-set_self (x ∷ xs) zero v d h = refl
  get_or-set_self (x ∷ xs) (suc i) v d h = get_or-set_self xs i v d (omega arith)

  pub get_or-set_ne :
      (xs : List A) (i j : ℕ) (v d : A) → i ≢ j → get_or (set xs i v) j d ≡ get_or xs j d
  get_or-set_ne [] i j v d h = refl
  get_or-set_ne (x ∷ xs) zero zero v d h = absurd (h refl)
  get_or-set_ne (x ∷ xs) zero (suc j) v d h = refl
  get_or-set_ne (x ∷ xs) (suc i) zero v d h = refl
  get_or-set_ne (x ∷ xs) (suc i) (suc j) v d h = get_or-set_ne xs i j v d (λ e. h (ap suc e))

  pub length-take : (n : ℕ) (xs : List A) → length (take n xs) ≡ min n (length xs)
  length-take zero xs = omega arith
  length-take (suc n) [] = omega arith
  length-take (suc n) (x ∷ xs) = omega (arith, length-take n xs)

  pub length-drop : (n : ℕ) (xs : List A) → length (drop n xs) ≡ length xs - n
  length-drop zero xs = omega arith
  length-drop (suc n) [] = omega arith
  length-drop (suc n) (x ∷ xs) = omega (arith, length-drop n xs)

  pub length-replicate : (n : ℕ) (a : A) → length (replicate n a) ≡ n
  length-replicate zero a = refl
  length-replicate (suc n) a = ap suc (length-replicate n a)

  pub length-store : (xs : List A) (i : ℕ) (vs : List A) → length (store xs i vs) ≡ length xs
  unfolding store
  length-store xs i [] = refl
  length-store xs i (v ∷ vs) = length-store (set xs i v) (i + 1) vs ∙ length-set xs i v

  pub get_or-store_before :
      (xs : List A) (i : ℕ) (vs : List A) (j : ℕ) (d : A)
      → j < i
      → get_or (store xs i vs) j d ≡ get_or xs j d
  unfolding store
  get_or-store_before xs i [] j d h = refl
  get_or-store_before xs i (v ∷ vs) j d h =
      get_or-store_before (set xs i v) (i + 1) vs j d (omega arith)
      ∙ get_or-set_ne xs i j v d (omega arith)

  pub get_or-store_after :
      (xs : List A) (i : ℕ) (vs : List A) (j : ℕ) (d : A)
      → i + length vs ≤ j
      → get_or (store xs i vs) j d ≡ get_or xs j d
  unfolding store
  get_or-store_after xs i [] j d h = refl
  get_or-store_after xs i (v ∷ vs) j d h =
      get_or-store_after (set xs i v) (i + 1) vs j d (omega arith)
      ∙ get_or-set_ne xs i j v d (omega arith)

  pub get_or-store_at :
      (xs : List A) (i : ℕ) (vs : List A) (k : ℕ) (d : A)
      → i + length vs ≤ length xs
      → k < length vs
      → get_or (store xs i vs) (i + k) d ≡ get_or vs k d
  unfolding store
  get_or-store_at xs i [] k d fits h = absurd (omega arith)
  get_or-store_at xs i (v ∷ vs) zero d fits h =
      ap (λ (j : ℕ). get_or (store (set xs i v) (i + 1) vs) j d) (omega arith)
      ∙ get_or-store_before (set xs i v) (i + 1) vs i d (omega arith)
      ∙ get_or-set_self xs i v d (omega arith)
  get_or-store_at xs i (v ∷ vs) (suc k) d fits h =
      ap (λ (j : ℕ). get_or (store (set xs i v) (i + 1) vs) j d) (omega arith)
      ∙ get_or-store_at (set xs i v) (i + 1) vs k d (omega (arith, length-set xs i v)) (omega arith)

module _ {ℓ} {A : Type ℓ} where
  take-set_beyond : (n : ℕ) (xs : List A) (i : ℕ) (v : A) → n ≤ i → take n (set xs i v) ≡ take n xs
  take-set_beyond zero xs i v h = refl
  take-set_beyond (suc n) [] i v h = refl
  take-set_beyond (suc n) (x ∷ xs) zero v h = absurd (omega arith)
  take-set_beyond (suc n) (x ∷ xs) (suc i) v h =
      ap (λ r. x ∷ r) (take-set_beyond n xs i v (omega arith))

  pub take-store_beyond :
      (n : ℕ) (xs : List A) (i : ℕ) (vs : List A) → n ≤ i → take n (store xs i vs) ≡ take n xs
  unfolding store
  take-store_beyond n xs i [] h = refl
  take-store_beyond n xs i (v ∷ vs) h =
      take-store_beyond n (set xs i v) (i + 1) vs (omega arith) ∙ take-set_beyond n xs i v h

module _ {ℓ} {A : Type ℓ} where
  pub take-set_self :
      (xs : List A) (i : ℕ) (v : A)
      → i < length xs
      → take (suc i) (set xs i v) ≡ take i xs ++ (v ∷ [])
  take-set_self [] i v h = absurd (omega arith)
  take-set_self (x ∷ xs) zero v h = refl
  take-set_self (x ∷ xs) (suc i) v h = ap (λ r. x ∷ r) (take-set_self xs i v (omega arith))

  -- Up to the end of a stored run stands what was in front of it, and the run.
  pub take-store :
      (xs : List A) (i : ℕ) (vs : List A)
      → i + length vs ≤ length xs
      → take (i + length vs) (store xs i vs) ≡ take i xs ++ vs
  unfolding store
  take-store xs i [] h =
      ap (λ (n : ℕ). take n xs) (let e : i + 0 ≡ i = omega arith in e)
      ∙ sym (append-nil (take i xs))
  take-store xs i (v ∷ vs) h =
      ap (λ (n : ℕ). take n (store (set xs i v) (i + 1) vs))
        (let e : i + suc (length vs) ≡ i + 1 + length vs = omega arith in e)
      ∙ take-store (set xs i v) (i + 1) vs (omega (arith, length-set xs i v))
      ∙ ap (λ (n : ℕ). take n (set xs i v) ++ vs) (let e : i + 1 ≡ suc i = omega arith in e)
      ∙ ap (λ r. r ++ vs) (take-set_self xs i v (omega arith))
      ∙ append_assoc (take i xs) (v ∷ []) vs

  pub store-nil : (xs : List A) (i : ℕ) → store xs i [] ≡ xs
  unfolding store
  store-nil xs i = refl

  take-nil : (n : ℕ) → take {A = A} n [] ≡ []
  take-nil zero = refl
  take-nil (suc n) = refl

  drop-take : (i n : ℕ) (xs : List A) → drop i (take (i + n) xs) ≡ take n (drop i xs)
  drop-take zero n xs = ap (λ (k : ℕ). take k xs) (let e : 0 + n ≡ n = omega arith in e)
  drop-take (suc i) n [] =
      ap (λ (r : List A). drop (suc i) r) (take-nil (suc i + n)) ∙ sym (take-nil n)
  drop-take (suc i) n (x ∷ xs) =
      ap (λ (k : ℕ). drop (suc i) (take k (x ∷ xs)))
        (let e : suc i + n ≡ suc (i + n) = omega arith in e)
      ∙ drop-take i n xs

  drop-append : (xs ys : List A) → drop (length xs) (xs ++ ys) ≡ ys
  drop-append [] ys = refl
  drop-append (x ∷ xs) ys = drop-append xs ys

  -- A stored run is read back from where it was stored.
  pub slice-store :
      (xs : List A) (i : ℕ) (vs : List A)
      → i + length vs ≤ length xs
      → slice (store xs i vs) i (length vs) ≡ vs
  unfolding slice
  slice-store xs i vs h =
      sym (drop-take i (length vs) (store xs i vs))
      ∙ ap (λ r. drop i r) (take-store xs i vs h)
      ∙ ap (λ (k : ℕ). drop k (take i xs ++ vs))
          (let e : i ≡ length (take i xs) = omega (arith, length-take i xs) in e)
      ∙ drop-append (take i xs) vs
