-- ===== src/Spi/StaticDevice/Refuse.antt =====
-- What `StaticDevice::transaction` refuses, described by a table of the buffers that each kind of
-- operation uses.
use ecu_drivers.Prelude.{
  ℕ, ◌<◌, ◌≡◌, ◌↔◌, ◌&&◌, refl, ◌∙◌, ap, inl, inr, Bool, true, false, ◌⊎◌, List, [], ◌∷◌, ◌++◌,
  ==_iff, Bool-cases, arith,
}
use ecu_drivers.Foundation.Result.{failure}
use ecu_drivers.Foundation.Span
use ecu_drivers.Foundation.Span.{Span}
use ecu_drivers.Foundation.Action.{fail}
use ecu_drivers.Spi.Contract
use ecu_drivers.Spi.Contract.{BitOrder, Operation, OperationKind}
use ecu_drivers.Spi.Trace.{Environment, World}
use ecu_drivers.Spi.StaticDevice.{
  Device, DeviceState, StaticDeviceError, invalid_operation_error, unsupported_bit_order_error,
  transaction, all_valid,
}

-- the kinds that send bytes, and the kinds that fill a buffer
abbrev pub sends : OperationKind → Bool
sends OperationKind.write = true
sends OperationKind.read = false
sends OperationKind.transfer = true
sends OperationKind.delay = false

abbrev pub fills : OperationKind → Bool
fills OperationKind.write = false
fills OperationKind.read = true
fills OperationKind.transfer = true
fills OperationKind.delay = false

-- A buffer in use has memory for all it counts; one that is not in use counts nothing.
abbrev pub Fits : Bool → Span ℕ → Type 0
Fits true (Span.null n) = n ≡ 0
Fits true (Span.view xs) = Unit
Fits false s = Span.size s ≡ 0

abbrev pub IsGood : Operation → Type 0
IsGood op = Fits (sends op.kind) op.tx × Fits (fills op.kind) op.rx

abbrev pub AllGood : List Operation → Type 0
AllGood [] = Unit
AllGood (op ∷ ops) = IsGood op × AllGood ops

-- a list that counts operations at a null pointer, or one with an operation that is not good
abbrev pub Broken : Span Operation → Type 0
Broken (Span.null n) = 0 < n
Broken (Span.view ops) =
    (before : List Operation) × (op : Operation) × (after : List Operation) × (ops
      ≡ before ++ (op ∷ after))
    × (¬ IsGood op)

abbrev pub Sound : Span Operation → Type 0
Sound (Span.null n) = n ≡ 0
Sound (Span.view ops) = AllGood ops

Fits-used : (s : Span ℕ) → (Span.valid s ≡ true) ↔ Fits true s
Fits-used (Span.null n) = ==_iff n 0
Fits-used (Span.view xs) = (λ _. tt, λ _. refl)

Fits-unused : (s : Span ℕ) → (Span.empty s ≡ true) ↔ Fits false s
Fits-unused s = ==_iff (Span.size s) 0

-- the code's test agrees with the table
valid-IsGood : (op : Operation) → (Contract.valid op ≡ true) ↔ IsGood op
valid-IsGood op = go op.kind
  where
    both :
        {x y : Bool} {X Y : Type 0}
        → ((x ≡ true) ↔ X)
        → ((y ≡ true) ↔ Y)
        → ((x && y) ≡ true) ↔ (X × Y)
    both {x = true} {y = true} f g = (λ _. (f.0 refl, g.0 refl), λ _. refl)
    both {x = true} {y = false} f g = (λ h. absurd (ground (arith, h)), λ p. g.1 p.1)
    both {x = false} {y = y} f g = (λ h. absurd (ground (arith, h)), λ p. f.1 p.0)

    go :
        (kind : OperationKind)
        → (Contract.valid (record op { kind = kind }) ≡ true) ↔ IsGood (record op { kind = kind })
    go OperationKind.write = both (Fits-used op.tx) (Fits-unused op.rx)
    go OperationKind.read = both (Fits-unused op.tx) (Fits-used op.rx)
    go OperationKind.transfer = both (Fits-used op.tx) (Fits-used op.rx)
    go OperationKind.delay = both (Fits-unused op.tx) (Fits-unused op.rx)

bad-refused :
    (before : List Operation) (op : Operation) (after : List Operation)
    → ¬ IsGood op
    → all_valid (before ++ (op ∷ after)) ≡ false
bad-refused [] op after bad = elim (Bool-cases (Contract.valid op)) [
  | inl h ↦ absurd (bad ((valid-IsGood op).0 h))
  | inr h ↦ rw h refl
]
bad-refused (first ∷ before) op after bad = ground (arith, bad-refused before op after bad)

AllGood-valid : (ops : List Operation) → AllGood ops → all_valid ops ≡ true
AllGood-valid [] h = refl
AllGood-valid (op ∷ ops) h = ground (arith, (valid-IsGood op).1 h.0, AllGood-valid ops h.1)

module _ (env : Environment) (d : Device) where
  -- the list or an operation of it is broken, or all is well but the order of bits
  abbrev pub Reason : Span Operation → Type 0
  Reason ops =
      Broken ops
      ⊎ (Sound ops
          × (d.configuration.bus.order ≡ BitOrder.lsb_first)
          × (d.supports_lsb_first ≡ false))

  abbrev pub reason_error : (ops : Span Operation) → Reason ops → StaticDeviceError
  reason_error ops (inl broken) = invalid_operation_error
  reason_error ops (inr order) = unsupported_bit_order_error

  -- A transaction whose list of operations counts elements at a null pointer, or holds an operation
  -- with a buffer that its kind needs and has not, or has and does not use, is refused as invalid;
  -- one without such a fault, but with the least significant bit first on a bus that lacks it,
  -- for its order of bits. Either way no event is logged and nothing of the object changes.
  pub transaction_refuses :
      (ops : Span Operation) (w : World DeviceState) (reason : Reason ops)
      → transaction env d ops w ≡ (failure (reason_error ops reason), w)
  unfolding transaction fail
  transaction_refuses (Span.null n) w (inl broken) = ground arith
  transaction_refuses (Span.view ops) w (inl (before, op, after, e, bad)) =
      rw (ap all_valid e ∙ bad-refused before op after bad) refl
  transaction_refuses (Span.null n) w (inr (none, order, unsupported)) =
      rw (none, order, unsupported) refl
  transaction_refuses (Span.view ops) w (inr (good, order, unsupported)) =
      rw (AllGood-valid ops good, order, unsupported) refl
