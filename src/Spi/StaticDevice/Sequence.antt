-- ===== src/Spi/StaticDevice/Sequence.antt =====
-- What a transaction that succeeds puts on the wires: the whole sequence, in order.
use ecu_drivers.Prelude.{
  ◌≡◌, refl, ◌∙◌, inl, inr, ◌&&◌, ◌||◌, not, ap, sym, subst, List, [], ◌∷◌, Bool-cases,
}
use ecu_drivers.Foundation.Result.{Result, success, failure}
use ecu_drivers.Foundation.Span
use ecu_drivers.Foundation.Span.{Span}
use ecu_drivers.Foundation.Action.{fail}
use ecu_drivers.Foundation.Action.Rules.{
  Ensures, Post, pure-Ensures, modify-Ensures, >>=-Ensures, on_error-Ensures,
}
use ecu_drivers.Spi.Contract.{Operation, OperationKind}
use ecu_drivers.Spi.Trace.{Event, Log, Environment, World, ignore, with_lock}
use ecu_drivers.Spi.Trace.Rules.{call-Ensures, emit-Ensures}
use ecu_drivers.Spi.StaticDevice.{
  Device, DeviceState, StaticDeviceError, invalid_operation_error, unsupported_bit_order_error,
  opposite, execute, execute_all, configure, locked_transaction, transaction, all_valid,
  is_lsb_first,
}

on_top : {event : Event} {log log' : Log} → log ≡ log' → event ∷ log ≡ event ∷ log'
on_top {event = event} e = ap (λ l. event ∷ l) e

module _ (env : Environment) (d : Device) where
  -- the events of one operation, and of all in turn, onto a log
  abbrev pub operation_events : Operation → Log → Log
  operation_events op log = elim op.kind [
    | OperationKind.write ↦ Event.bus_write (Span.elements op.tx) ∷ log
    | OperationKind.read ↦ Event.bus_read (Span.size op.rx) d.configuration.bus.read_fill ∷ log
    | OperationKind.transfer ↦ Event.bus_transfer (Span.elements op.tx) (Span.size op.rx) ∷ log
    | OperationKind.delay ↦ Event.delay_for op.duration ∷ Event.bus_flush ∷ log
  ]

  abbrev pub all_events : List Operation → Log → Log
  all_events [] log = log
  all_events (op ∷ ops) log = all_events ops (operation_events op log)

  -- a successful transaction, from the lock to its release
  abbrev pub transaction_events : List Operation → Log → Log
  transaction_events ops log =
      Event.unlock
      ∷ Event.chip_select (opposite d.asserted_level)
      ∷ Event.delay_for d.configuration.cs_hold
      ∷ Event.bus_flush
      ∷ all_events ops (
          Event.delay_for d.configuration.cs_setup
          ∷ Event.chip_select d.asserted_level
          ∷ Event.bus_configure d.configuration.bus
          ∷ Event.lock
          ∷ log)

  -- the log is this, and the frequency kept is what the bus has answered at that one
  abbrev Shows : Log → Log → World DeviceState → Type 0
  Shows log f w = (w.log ≡ log) × (env.configured f ≡ success w.driver.actual_frequency)

  execute-events :
      (op : Operation) (log : Log) (f : Log)
      → Ensures
          (Shows log f)
          (execute env d op)
          (λ _. Shows (operation_events op log) f)
          (λ e w. Unit)
  unfolding execute
  execute-events op log f = go op.kind
    where
      go :
          (kind : OperationKind)
          → Ensures
              (Shows log f)
              (execute env d (record op { kind = kind }))
              (λ _. Shows (operation_events (record op { kind = kind }) log) f)
              (λ e w. Unit)
      go OperationKind.write = call-Ensures _ _ _ (λ a w h _. (on_top h.0, h.1)) (λ x w h. tt)
      go OperationKind.read = call-Ensures _ _ _ (λ a w h _. (on_top h.0, h.1)) (λ x w h. tt)
      go OperationKind.transfer = call-Ensures _ _ _ (λ a w h _. (on_top h.0, h.1)) (λ x w h. tt)
      go OperationKind.delay =
          >>=-Ensures (λ _. Shows (Event.bus_flush ∷ log) f)
            (call-Ensures _ _ _ (λ a w h _. (on_top h.0, h.1)) (λ x w h. tt))
            (λ _. emit-Ensures _ (λ w h. (on_top h.0, h.1)))

  execute_all-events :
      (ops : List Operation) (log : Log) (f : Log)
      → Ensures
          (Shows log f)
          (execute_all env d ops)
          (λ _. Shows (all_events ops log) f)
          (λ e w. Unit)
  unfolding execute_all
  execute_all-events [] log f = pure-Ensures _ tt (λ w h. h)
  execute_all-events (op ∷ ops) log f =
      >>=-Ensures (λ _. Shows (operation_events op log) f) (execute-events op log f)
        (λ _. execute_all-events ops (operation_events op log) f)

  locked_transaction-events :
      (ops : List Operation) (log : Log)
      → let f = Event.bus_configure d.configuration.bus ∷ Event.lock ∷ log in
        Ensures
          (λ w. w.log ≡ Event.lock ∷ log)
          (locked_transaction env d ops)
          (λ _ w. Shows (transaction_events ops log) f (ignore Event.unlock w))
          (λ e w. Unit)
  unfolding locked_transaction configure
  locked_transaction-events ops log =
      let f = Event.bus_configure d.configuration.bus ∷ Event.lock ∷ log in
      let ready =
        Event.delay_for d.configuration.cs_setup ∷ Event.chip_select d.asserted_level ∷ f in
      >>=-Ensures (λ _. Shows f f)
        (>>=-Ensures (λ a w. (w.log ≡ f) × (env.configured f ≡ success a))
          (call-Ensures _ _ _
            (λ a w h e. (
              on_top h,
              ap (λ l. env.configured (Event.bus_configure d.configuration.bus ∷ l)) (sym h) ∙ e,
            ))
            (λ x w h. tt))
          (λ a. modify-Ensures _ (λ w h. h)))
        (λ _.
          >>=-Ensures (λ _. Shows (Event.chip_select d.asserted_level ∷ f) f)
            (call-Ensures _ _ _ (λ a w h _. (on_top h.0, h.1)) (λ x w h. tt))
            (λ _.
              >>=-Ensures (λ _. Shows ready f) (emit-Ensures _ (λ w h. (on_top h.0, h.1)))
                (λ _.
                  >>=-Ensures (λ _. Shows (all_events ops ready) f)
                    (on_error-Ensures _ (λ e w. Unit) (execute_all-events ops ready f)
                      (λ e w h. tt))
                    (λ _.
                      >>=-Ensures (λ _. Shows (Event.bus_flush ∷ all_events ops ready) f)
                        (on_error-Ensures _ (λ e w. Unit)
                          (call-Ensures _ _ _ (λ a w h _. (on_top h.0, h.1)) (λ x w h. tt))
                          (λ e w h. tt))
                        (λ _.
                          >>=-Ensures
                            (λ _.
                              Shows
                                (Event.delay_for d.configuration.cs_hold
                                  ∷ Event.bus_flush
                                  ∷ all_events ops ready)
                                f)
                            (emit-Ensures _ (λ w h. (on_top h.0, h.1)))
                            (λ _.
                              call-Ensures _ _ _ (λ a w h _. (on_top (on_top h.0), h.1))
                                (λ x w h. tt)))))))

  -- A transaction that succeeds has logged exactly its sequence: lock, configure, select, setup
  -- delay, the operations in order, flush, hold delay, deselect, unlock; and it keeps the frequency
  -- with which the bus has answered the configuration.
  pub transaction_succeeds :
      (ops : Span Operation) (w w' : World DeviceState)
      → transaction env d ops w ≡ (success tt, w')
      → (w'.log ≡ transaction_events (Span.elements ops) w.log)
        × (env.configured (Event.bus_configure d.configuration.bus ∷ Event.lock ∷ w.log)
            ≡ success w'.driver.actual_frequency)
  unfolding transaction fail with_lock
  transaction_succeeds ops w w' e =
      elim (Bool-cases (not (Span.valid ops) || not (all_valid (Span.elements ops)))) [
        | inl bad ↦ refused invalid_operation_error (rw bad at e)
        | inr good ↦
            elim (Bool-cases (is_lsb_first d.configuration.bus.order && not d.supports_lsb_first)) [
              | inl bad ↦ refused unsupported_bit_order_error (rw bad at (rw good at e))
              | inr fine ↦
                  ran (locked_transaction env d (Span.elements ops) (ignore Event.lock w))
                    ((locked_transaction-events (Span.elements ops) w.log).apply
                      (ignore Event.lock w) refl)
                    (rw fine at (rw good at e))
            ]
      ]
    where
      refused :
          (x : StaticDeviceError)
          → ◌≡◌ {A = Result Unit StaticDeviceError × World DeviceState}
              (failure x, w)
              (success tt, w')
          → (w'.log ≡ transaction_events (Span.elements ops) w.log)
            × (env.configured (Event.bus_configure d.configuration.bus ∷ Event.lock ∷ w.log)
                ≡ success w'.driver.actual_frequency)
      refused x h = absurd (cc)

      ran :
          (out : Result Unit StaticDeviceError × World DeviceState)
          → Post
              (λ _ v.
                Shows
                  (transaction_events (Span.elements ops) w.log)
                  (Event.bus_configure d.configuration.bus ∷ Event.lock ∷ w.log)
                  (ignore Event.unlock v))
              (λ x v. Unit)
              out
          → ◌≡◌ {A = Result Unit StaticDeviceError × World DeviceState}
              (out.0, ignore Event.unlock out.1)
              (success tt, w')
          → (w'.log ≡ transaction_events (Span.elements ops) w.log)
            × (env.configured (Event.bus_configure d.configuration.bus ∷ Event.lock ∷ w.log)
                ≡ success w'.driver.actual_frequency)
      ran (success _, v) h q =
          subst
            (Shows (transaction_events (Span.elements ops) w.log)
              (Event.bus_configure d.configuration.bus ∷ Event.lock ∷ w.log))
            (ap (λ p. p.1) q) h
      ran (failure x, v) h q = absurd (cc)
