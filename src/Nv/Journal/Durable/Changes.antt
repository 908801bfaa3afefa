-- ===== src/Nv/Journal/Durable/Changes.antt =====
-- Contents that agree outside of a range, and bytes that are erased.
use ecu_drivers.Prelude.{
  ℕ, ◌+◌, ◌≤◌, ◌≡◌, ◌∙◌, subst, ◌⊎◌, inl, inr, List, arith, length, slice, slice-store_before,
  slice-store_after, slice-replicate, store, replicate,
}
use ecu_drivers.Nv.Lawful.{AgreeOutside}

-- `size` bytes at `offset` are erased
abbrev pub Clean : List ℕ → ℕ → ℕ → Type 0
Clean xs offset size = slice xs offset size ≡ replicate size 0xFF

pub Clean-part :
    (xs : List ℕ) (offset size d n : ℕ)
    → Clean xs offset size
    → d + n ≤ size
    → Clean xs (offset + d) n
Clean-part xs offset size d n h fits = slice-replicate xs offset size d n 0xFF h fits

pub Clean-front :
    (xs : List ℕ) (offset size n : ℕ) → Clean xs offset size → n ≤ size → Clean xs offset n
Clean-front xs offset size n h fits =
    subst (λ (o : ℕ). Clean xs o n) (let e : offset + 0 ≡ offset = omega arith in e)
      (Clean-part xs offset size 0 n h (omega (arith, fits)))

-- A change inside of a range is a change inside of a larger one.
pub AgreeOutside-wider :
    (xs ys : List ℕ) (offset size offset' size' : ℕ)
    → AgreeOutside offset size xs ys
    → offset' ≤ offset
    → offset + size ≤ offset' + size'
    → AgreeOutside offset' size' xs ys
AgreeOutside-wider xs ys offset size offset' size' h p q j n (inl k) =
    h j n (inl (omega (arith, k, p)))
AgreeOutside-wider xs ys offset size offset' size' h p q j n (inr k) =
    h j n (inr (omega (arith, k, q)))

pub AgreeOutside-trans :
    (xs ys zs : List ℕ) (offset size : ℕ)
    → AgreeOutside offset size xs ys
    → AgreeOutside offset size ys zs
    → AgreeOutside offset size xs zs
AgreeOutside-trans xs ys zs offset size h k j n o = k j n o ∙ h j n o

pub AgreeOutside-store :
    (xs : List ℕ) (offset : ℕ) (vs : List ℕ)
    → AgreeOutside offset (length vs) xs (store xs offset vs)
AgreeOutside-store xs offset vs j n (inl k) = slice-store_before xs j n offset vs k
AgreeOutside-store xs offset vs j n (inr k) = slice-store_after xs j n offset vs k

-- What is outside of the changed range is as clean as before.
pub Clean-kept :
    (xs ys : List ℕ) (offset size j n : ℕ)
    → AgreeOutside offset size xs ys
    → (j + n ≤ offset) ⊎ (offset + size ≤ j)
    → Clean xs j n
    → Clean ys j n
Clean-kept xs ys offset size j n h o k = h j n o ∙ k
