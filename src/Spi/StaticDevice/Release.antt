-- ===== src/Spi/StaticDevice/Release.antt =====
-- The chip select and the lock are given back on every way out of a transaction.
use ecu_drivers.Prelude.{
  ◌≡◌, refl, ◌⊎◌, inl, inr, true, false, ◌&&◌, ◌||◌, not, some, List, [], ◌∷◌, Bool-cases,
}
use ecu_drivers.Foundation.Result.{Result, success, failure}
use ecu_drivers.Foundation.Span
use ecu_drivers.Foundation.Span.{Span}
use ecu_drivers.Foundation.Action.{fail}
use ecu_drivers.Foundation.Action.Rules.{
  Ensures, Post, pure-Ensures, modify-Ensures, >>=-Ensures, on_error-Ensures,
}
use ecu_drivers.Spi.Contract.{Operation, OperationKind}
use ecu_drivers.Spi.Trace.{
  Event, Log, Environment, World, last_select, is_locked, ignore, with_lock,
}
use ecu_drivers.Spi.Trace.Rules.{call-Ensures, emit-Ensures}
use ecu_drivers.Spi.StaticDevice.{
  Device, DeviceState, StaticDeviceError, chip_select_error, opposite, execute, execute_all,
  configure, locked_transaction, transaction, best_effort_release, all_valid, is_lsb_first,
}

module _ (env : Environment) (d : Device) where
  -- selected, under the lock
  abbrev IsSelected : World DeviceState → Type 0
  IsSelected w = (last_select w.log ≡ some d.asserted_level) × (is_locked w.log ≡ true)

  -- deselected, under the lock
  abbrev IsReleased : World DeviceState → Type 0
  IsReleased w = (last_select w.log ≡ some (opposite d.asserted_level)) × (is_locked w.log ≡ true)

  execute-Ensures :
      (op : Operation) → Ensures IsSelected (execute env d op) (λ _. IsSelected) (λ _. IsSelected)
  unfolding execute
  execute-Ensures op = go op.kind
    where
      go :
          (kind : OperationKind)
          → Ensures IsSelected
              (execute env d (record op { kind = kind }))
              (λ _. IsSelected)
              (λ _. IsSelected)
      go OperationKind.write = call-Ensures _ _ _ (λ a w h _. h) (λ x w h. h)
      go OperationKind.read = call-Ensures _ _ _ (λ a w h _. h) (λ x w h. h)
      go OperationKind.transfer = call-Ensures _ _ _ (λ a w h _. h) (λ x w h. h)
      go OperationKind.delay =
          >>=-Ensures (λ _. IsSelected) (call-Ensures _ _ _ (λ a w h _. h) (λ x w h. h))
            (λ _. emit-Ensures _ (λ w h. h))

  execute_all-Ensures :
      (ops : List Operation)
      → Ensures IsSelected (execute_all env d ops) (λ _. IsSelected) (λ _. IsSelected)
  unfolding execute_all
  execute_all-Ensures [] = pure-Ensures _ tt (λ w h. h)
  execute_all-Ensures (op ∷ ops) =
      >>=-Ensures (λ _. IsSelected) (execute-Ensures op) (λ _. execute_all-Ensures ops)

  -- How a transaction that was begun at the log `before` may leave the chip select: as it was, told
  -- to deselect, or, where the very call that selects has failed, with that call as its last.
  abbrev pub LeftAs : Log → StaticDeviceError → World DeviceState → Type 0
  LeftAs before e w =
      (last_select w.log ≡ last_select before)
      ⊎ (last_select w.log ≡ some (opposite d.asserted_level))
      ⊎ ((last_select w.log ≡ some d.asserted_level) × (e ≡ chip_select_error))

  locked_transaction-Ensures :
      (before : Log) (ops : List Operation)
      → Ensures
          (λ w. (last_select w.log ≡ last_select before) × (is_locked w.log ≡ true))
          (locked_transaction env d ops)
          (λ _. IsReleased)
          (λ e w. LeftAs before e w × (is_locked w.log ≡ true))
  unfolding locked_transaction configure best_effort_release
  locked_transaction-Ensures before ops =
      >>=-Ensures (λ _ w. (last_select w.log ≡ last_select before) × (is_locked w.log ≡ true))
        (>>=-Ensures (λ _ w. (last_select w.log ≡ last_select before) × (is_locked w.log ≡ true))
          (call-Ensures _ _ _ (λ a w h _. h) (λ x w h. (inl h.0, h.1)))
          (λ a. modify-Ensures _ (λ w h. h)))
        (λ _.
          >>=-Ensures (λ _. IsSelected)
            (call-Ensures _ _ _ (λ a w h _. (refl, h.1)) (λ x w h. (inr (inr (refl, refl)), h.1)))
            (λ _.
              >>=-Ensures (λ _. IsSelected) (emit-Ensures _ (λ w h. h))
                (λ _.
                  >>=-Ensures (λ _. IsSelected)
                    (on_error-Ensures _ (λ _. IsSelected) (execute_all-Ensures ops)
                      (λ e w h. (inr (inl refl), h.1)))
                    (λ _.
                      >>=-Ensures (λ _. IsSelected)
                        (on_error-Ensures _ (λ _. IsSelected)
                          (call-Ensures _ _ _ (λ a w h _. h) (λ x w h. h))
                          (λ e w h. (inr (inl refl), h.1)))
                        (λ _.
                          >>=-Ensures (λ _. IsSelected) (emit-Ensures _ (λ w h. h))
                            (λ _.
                              call-Ensures _ _ _ (λ a w h _. (refl, h.1))
                                (λ x w h. (inr (inl refl), h.1))))))))

  -- How a whole transaction may end.
  abbrev pub EndsReleased : Log → Result Unit StaticDeviceError × World DeviceState → Type 0
  EndsReleased before (success _, w) =
      (is_locked w.log ≡ false) × (last_select w.log ≡ some (opposite d.asserted_level))
  EndsReleased before (failure e, w) = (is_locked w.log ≡ false) × LeftAs before e w

  -- Begun with the lock free, a transaction ends with the lock free, whatever the bus and the pin
  -- answer. If it succeeds, the chip select was last told to deselect. If it fails, the chip select
  -- is as it was before, or was last told to deselect, or was last told to select and the error is
  -- the chip select's own.
  pub transaction_releases :
      (ops : Span Operation) (w : World DeviceState)
      → is_locked w.log ≡ false
      → EndsReleased w.log (transaction env d ops w)
  unfolding transaction fail with_lock
  transaction_releases ops w free =
      elim (Bool-cases (not (Span.valid ops) || not (all_valid (Span.elements ops)))) [
        | inl bad ↦ rw bad (free, inl refl)
        | inr good ↦
            rw good
              (elim (Bool-cases
                (is_lsb_first d.configuration.bus.order && not d.supports_lsb_first)) [
                  | inl bad ↦ rw bad (free, inl refl)
                  | inr good ↦ rw good (
                      unlock_after
                        (locked_transaction env d (Span.elements ops) (ignore Event.lock w))
                        ((locked_transaction-Ensures w.log (Span.elements ops)).apply
                          (ignore Event.lock w) (refl, refl)))
                ])
      ]
    where
      unlock_after :
          (out : Result Unit StaticDeviceError × World DeviceState)
          → Post (λ _. IsReleased) (λ e w'. LeftAs w.log e w' × (is_locked w'.log ≡ true)) out
          → EndsReleased w.log (out.0, ignore Event.unlock out.1)
      unlock_after (success _, w') h = (refl, h.0)
      unlock_after (failure e, w') h = (refl, h.0)
