-- ===== src/Prelude/Lists/Slices.antt =====
-- How slices of a list lie in each other, and what a stored run leaves of them.
use Prim.Native.Nat.{ℕ, zero, suc, ◌+◌, ◌-◌, ◌<◌, ◌≤◌, min}
use mathlib.Core.Path.{◌≡◌, refl, sym, ap, ◌∙◌}
use mathlib.Core.List.{List, [], ◌∷◌, ◌++◌, append-nil}
use native.Mathlib.Decide.{dec_lt}
use native.Mathlib.Omega.{arith}
use ecu_drivers.Prelude.Lists.{
  slice-store, length, take, drop, set, store, slice, replicate, length-take, length-drop,
  length-store,
}

module _ {ℓ} {A : Type ℓ} where
  take-nil : (n : ℕ) → take {A = A} n [] ≡ []
  take-nil zero = refl
  take-nil (suc n) = refl

  drop-nil : (n : ℕ) → drop {A = A} n [] ≡ []
  drop-nil zero = refl
  drop-nil (suc n) = refl

  drop-drop : (m n : ℕ) (xs : List A) → drop n (drop m xs) ≡ drop (m + n) xs
  drop-drop zero n xs = ap (λ (k : ℕ). drop k xs) (let e : n ≡ 0 + n = omega arith in e)
  drop-drop (suc m) n [] = drop-nil n ∙ sym (drop-nil (suc m + n))
  drop-drop (suc m) n (x ∷ xs) =
      drop-drop m n xs
      ∙ ap (λ (k : ℕ). drop k (x ∷ xs)) (let e : suc (m + n) ≡ suc m + n = omega arith in e)

  pub take-add : (m n : ℕ) (xs : List A) → take (m + n) xs ≡ take m xs ++ take n (drop m xs)
  take-add zero n xs = ap (λ (k : ℕ). take k xs) (let e : 0 + n ≡ n = omega arith in e)
  take-add (suc m) n [] = take-nil (suc m + n) ∙ sym (take-nil n)
  take-add (suc m) n (x ∷ xs) =
      ap (λ (k : ℕ). take k (x ∷ xs)) (let e : suc m + n ≡ suc (m + n) = omega arith in e)
      ∙ ap (λ r. x ∷ r) (take-add m n xs)

  take-take : (m n : ℕ) (xs : List A) → m ≤ n → take m (take n xs) ≡ take m xs
  take-take zero n xs h = refl
  take-take (suc m) zero xs h = absurd (omega arith)
  take-take (suc m) (suc n) [] h = refl
  take-take (suc m) (suc n) (x ∷ xs) h = ap (λ r. x ∷ r) (take-take m n xs (omega arith))

  pub take-drop : (n : ℕ) (xs : List A) → take n xs ++ drop n xs ≡ xs
  take-drop zero xs = refl
  take-drop (suc n) [] = refl
  take-drop (suc n) (x ∷ xs) = ap (λ r. x ∷ r) (take-drop n xs)

  pub slice-zero : (xs : List A) (i : ℕ) → slice xs i 0 ≡ []
  unfolding slice
  slice-zero xs i = refl

  pub slice-add :
      (xs : List A) (i m n : ℕ) → slice xs i (m + n) ≡ slice xs i m ++ slice xs (i + m) n
  unfolding slice
  slice-add xs i m n =
      take-add m n (drop i xs) ∙ ap (λ r. take m (drop i xs) ++ take n r) (drop-drop i m xs)

  pub take-slice : (xs : List A) (i m n : ℕ) → m ≤ n → take m (slice xs i n) ≡ slice xs i m
  unfolding slice
  take-slice xs i m n h = take-take m n (drop i xs) h

  pub length-slice : (xs : List A) (i n : ℕ) → i + n ≤ length xs → length (slice xs i n) ≡ n
  unfolding slice
  length-slice xs i n h = omega (arith, length-take n (drop i xs), length-drop i xs)

  pub store-append :
      (xs : List A) (i : ℕ) (us vs : List A)
      → store (store xs i us) (i + length us) vs ≡ store xs i (us ++ vs)
  unfolding store
  store-append xs i [] vs = ap (λ (k : ℕ). store xs k vs) (let e : i + 0 ≡ i = omega arith in e)
  store-append xs i (u ∷ us) vs =
      ap (λ (k : ℕ). store (store (set xs i u) (i + 1) us) k vs)
        (let e : i + suc (length us) ≡ i + 1 + length us = omega arith in e)
      ∙ store-append (set xs i u) (i + 1) us vs

  slice-set_before :
      (xs : List A) (j n i : ℕ) (v : A) → j + n ≤ i → slice (set xs i v) j n ≡ slice xs j n
  unfolding slice
  slice-set_before [] j n i v h = refl
  slice-set_before (x ∷ xs) zero zero i v h = refl
  slice-set_before (x ∷ xs) zero (suc n) zero v h = absurd (omega arith)
  slice-set_before (x ∷ xs) zero (suc n) (suc i) v h =
      ap (λ r. x ∷ r) (slice-set_before xs zero n i v (omega arith))
  slice-set_before (x ∷ xs) (suc j) n zero v h = absurd (omega arith)
  slice-set_before (x ∷ xs) (suc j) n (suc i) v h = slice-set_before xs j n i v (omega arith)

  slice-set_after :
      (xs : List A) (j n i : ℕ) (v : A) → i < j → slice (set xs i v) j n ≡ slice xs j n
  unfolding slice
  slice-set_after [] j n i v h = refl
  slice-set_after (x ∷ xs) zero n i v h = absurd (omega arith)
  slice-set_after (x ∷ xs) (suc j) n zero v h = refl
  slice-set_after (x ∷ xs) (suc j) n (suc i) v h = slice-set_after xs j n i v (omega arith)

  -- A stored run leaves what is in front of it, and what is behind it.
  pub slice-store_before :
      (xs : List A) (j n i : ℕ) (vs : List A) → j + n ≤ i → slice (store xs i vs) j n ≡ slice xs j n
  unfolding store
  slice-store_before xs j n i [] h = refl
  slice-store_before xs j n i (v ∷ vs) h =
      slice-store_before (set xs i v) j n (i + 1) vs (omega arith) ∙ slice-set_before xs j n i v h

  pub slice-store_after :
      (xs : List A) (j n i : ℕ) (vs : List A)
      → i + length vs ≤ j
      → slice (store xs i vs) j n ≡ slice xs j n
  unfolding store
  slice-store_after xs j n i [] h = refl
  slice-store_after xs j n i (v ∷ vs) h =
      slice-store_after (set xs i v) j n (i + 1) vs (omega arith)
      ∙ slice-set_after xs j n i v (omega arith)

  take-drop-take :
      (m d n : ℕ) (xs : List A) → d + m ≤ n → take m (drop d (take n xs)) ≡ take m (drop d xs)
  take-drop-take m zero n xs h = take-take m n xs (omega arith)
  take-drop-take m (suc d) zero xs h = absurd (omega arith)
  take-drop-take m (suc d) (suc n) [] h = refl
  take-drop-take m (suc d) (suc n) (x ∷ xs) h = take-drop-take m d n xs (omega arith)

  take-drop-replicate :
      (m d n : ℕ) (a : A) → d + m ≤ n → take m (drop d (replicate n a)) ≡ replicate m a
  take-drop-replicate zero d n a h = refl
  take-drop-replicate (suc m) d zero a h = absurd (omega arith)
  take-drop-replicate (suc m) zero (suc n) a h =
      ap (λ r. a ∷ r) (take-drop-replicate m zero n a (omega arith))
  take-drop-replicate (suc m) (suc d) (suc n) a h = take-drop-replicate (suc m) d n a (omega arith)

  -- Every part of a slice that repeats one value repeats that value.
  pub slice-replicate :
      (xs : List A) (i n d m : ℕ) (a : A)
      → slice xs i n ≡ replicate n a
      → d + m ≤ n
      → slice xs (i + d) m ≡ replicate m a
  unfolding slice
  slice-replicate xs i n d m a h fits =
      ap (λ r. take m r) (sym (drop-drop i d xs))
      ∙ sym (take-drop-take m d n (drop i xs) fits)
      ∙ ap (λ r. take m (drop d r)) h
      ∙ take-drop-replicate m d n a fits

  -- A slice, as the part of its first chunk that it needs, and the rest behind that chunk.
  pub slice-chunk :
      (xs : List A) (i unit n : ℕ)
      → take (min n unit) (slice xs i unit) ++ slice xs (i + unit) (n - min n unit) ≡ slice xs i n
  slice-chunk xs i unit n = elim (dec_lt unit n) [
    | yes h ↦
        let e : min n unit ≡ unit = omega arith in
        rw e (
          ap (λ l. l ++ slice xs (i + unit) (n - unit)) (take-slice xs i unit unit (omega arith))
          ∙ sym (slice-add xs i unit (n - unit))
          ∙ ap (λ (k : ℕ). slice xs i k) (let f : unit + (n - unit) ≡ n = omega arith in f))
    | no h ↦
        let e : min n unit ≡ n = omega arith in
        let z : n - n ≡ 0 = omega arith in
        rw (e, z)
          (ap (λ l. l ++ slice xs (i + unit) 0) (take-slice xs i n unit (omega arith))
            ∙ ap (λ l. slice xs i n ++ l) (slice-zero xs (i + unit))
            ∙ append-nil (slice xs i n))
  ]

  slice_all : (xs : List A) → slice xs 0 (length xs) ≡ xs
  unfolding slice
  slice_all [] = refl
  slice_all (x ∷ xs) = ap (λ l. x ∷ l) (slice_all xs)

  -- what is as long as the list replaces it
  pub store_all : (xs vs : List A) → length vs ≡ length xs → store xs 0 vs ≡ vs
  store_all xs vs e =
      sym (slice_all (store xs 0 vs))
      ∙ ap (λ (n : ℕ). slice (store xs 0 vs) 0 n) (length-store xs 0 vs ∙ sym e)
      ∙ slice-store xs 0 vs (omega (arith, e))

  take_found : (n : ℕ) (xs : List A) → take n xs ≡ take (length (take n xs)) xs
  take_found zero xs = refl
  take_found (suc n) [] = refl
  take_found (suc n) (x ∷ xs) = ap (λ l. x ∷ l) (take_found n xs)

  -- A slice that passes the end is the shorter slice up to it.
  pub slice_found :
      (xs : List A) (i n : ℕ)
      → (length (slice xs i n) ≤ n) × (slice xs i n ≡ slice xs i (length (slice xs i n)))
  unfolding slice
  slice_found xs i n = (omega (arith, length-take n (drop i xs)), take_found n (drop i xs))
