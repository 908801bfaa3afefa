-- ===== src/Nv/Journal/Memory/Mount.antt =====
-- What `mount` hands out is a mounted journal, whatever the flash holds and answers.
use ecu_drivers.Prelude.{
  ℕ, ◌≤◌, ◌≡◌, ◌∙◌, Bool, true, false, not, ◌&&◌, ◌||◌, arith, Bool-cases, inl, inr, length,
  length-replicate, ◌==◌, if◌then◌else◌,
}
use ecu_drivers.Foundation.Result.{Result, success, failure}
use ecu_drivers.Foundation.Span
use ecu_drivers.Foundation.Span.{Span, length-elements}
use ecu_drivers.Foundation.Action.{◌>>◌}
use ecu_drivers.Foundation.Action.Rules.{
  Post, Ensures, >>=-Ensures, if-Ensures, fail-Ensures, weaken,
}
use ecu_drivers.Nv.Contract.{NorFlash}
use ecu_drivers.Nv.Journal.Error.{JournalError, recovery_error}
use ecu_drivers.Nv.Journal.Layout.{Config, IsConfig, region_end}
use ecu_drivers.Nv.Journal.Monad.{JournalMemory, World}
use ecu_drivers.Nv.Journal.Recover.{RegionInfo, load_active_region}
use ecu_drivers.Nv.Journal.Memory.{
  is_recovery, second_is_newer, select_region, load_or_fall_back, choose_region, mount_existing,
  mount, fresh,
}
use ecu_drivers.Nv.Journal.Memory.Mounted.{IsMounted, get_memory-Ensures, assign-Ensures}
use ecu_drivers.Nv.Journal.Memory.Format.{format_storage-Ensures}
use ecu_drivers.Nv.Journal.Memory.Load.{IsSized, inspect_region-Ensures, load_loop-Ensures}

abbrev pub MountOutcome : {S : Type 0} → Config → Result JournalMemory JournalError × S → Type 0
MountOutcome c (success m, _) = IsMounted c m
MountOutcome c (failure e, _) = Unit

ignore_failure :
    {W E A : Type 0} {P : W → Type 0} {R : A → W → Type 0} {F : E → W → Type 0}
    {m : W → Result A E × W}
    → Ensures P m R F
    → Ensures P m R (λ _ _. Unit)
ignore_failure {W = W} {E = E} {A = A} {R = R} {F = F} {m = m} h = record {
  apply = λ w p. go (m w) (h.apply w p);
}
  where
    go : (out : Result A E × W) → Post R F out → Post R (λ _ _. Unit) out
    go (success a, w) p = p
    go (failure e, w) p = tt

module _ {S : Type 0} {c : Config} (ok : IsConfig c) (flash : NorFlash S) where
  load_active_region-Ensures :
      Ensures
        (λ (w : World S). IsSized c w.memory)
        (load_active_region c flash)
        (λ _ w. IsMounted c w.memory)
        (λ _ w. IsSized c w.memory)
  unfolding load_active_region region_end
  load_active_region-Ensures =
      >>=-Ensures (λ _ w. IsMounted c w.memory)
        (assign-Ensures (IsSized c) (IsMounted c) _ (λ m h. (
          length-replicate {A = ℕ} (length m.mirror) 0xFF ∙ h.0,
          h.1,
          omega arith,
          omega (arith, ok.room),
        )))
        (λ _.
          >>=-Ensures (λ m w. (m ≡ w.memory) × IsMounted c w.memory)
            (get_memory-Ensures (IsMounted c))
            (λ m.
              weaken (load_loop-Ensures c flash c.region_size (m.generation == 1)) (λ w h. h.1)
                (λ a w h. h)))

  select_then_load-Ensures :
      (region generation : ℕ)
      → region ≤ 1
      → Ensures
          (λ (w : World S). IsSized c w.memory)
          (select_region c flash region generation >> load_active_region c flash)
          (λ _ w. IsMounted c w.memory)
          (λ _ _. Unit)
  unfolding select_region
  select_then_load-Ensures region generation h =
      >>=-Ensures (λ _ w. IsSized c w.memory)
        (assign-Ensures (IsSized c) (IsSized c) _ (λ m k. (k.0, h)))
        (λ _. ignore_failure load_active_region-Ensures)

  load_or_fall_back-Ensures :
      (alternate_valid : Bool) (region generation : ℕ)
      → region ≤ 1
      → Ensures
          (λ (w : World S). IsSized c w.memory)
          (load_or_fall_back c flash alternate_valid region generation)
          (λ _ w. IsMounted c w.memory)
          (λ _ _. Unit)
  unfolding load_or_fall_back
  load_or_fall_back-Ensures alternate_valid region generation h = record {
    apply = λ w p. go (load_active_region c flash w) (load_active_region-Ensures.apply w p);
  }
    where
      go :
          (out : Result Unit JournalError × World S)
          → Post (λ _ w. IsMounted c w.memory) (λ _ w. IsSized c w.memory) out
          → Post {W = World S} {E = JournalError}
              (λ (_ : Unit) w. IsMounted c w.memory)
              (λ _ _. Unit)
              (elim out.0 [
                | success u ↦ (success u, out.1)
                | failure e ↦
                    if is_recovery e && alternate_valid
                    then (select_region c flash region generation >> load_active_region c flash)
                        out.1
                    else (failure e, out.1)
              ])
      go (success u, w) p = p
      go (failure e, w) p = retried (is_recovery e && alternate_valid)
        where
          retried :
              (b : Bool)
              → Post {W = World S} {E = JournalError}
                  (λ (_ : Unit) w. IsMounted c w.memory)
                  (λ _ _. Unit)
                  (if b
                    then (select_region c flash region generation >> load_active_region c flash) w
                    else (failure e, w))
          retried true = (select_then_load-Ensures region generation h).apply w p
          retried false = tt

  choose_region-Ensures :
      (first second : RegionInfo)
      → Ensures
          (λ (w : World S). IsSized c w.memory)
          (choose_region c flash first second)
          (λ _ w. IsMounted c w.memory)
          (λ _ _. Unit)
  unfolding choose_region select_region
  choose_region-Ensures first second =
      if-Ensures (not first.is_valid && not second.is_valid)
        (λ _.
          if-Ensures (first.is_erased && second.is_erased)
            (λ _. weaken (format_storage-Ensures ok flash) (λ w h. h.0) (λ a w h. h.0))
            (λ _. fail-Ensures recovery_error (λ w h. tt)))
        (λ _.
          if-Ensures (first.is_valid && second.is_valid && first.generation == second.generation)
            (λ _. fail-Ensures recovery_error (λ w h. tt))
            (λ _.
              if-Ensures (second_is_newer c flash first second)
                (λ _.
                  >>=-Ensures (λ _ w. IsSized c w.memory)
                    (assign-Ensures (IsSized c) (IsSized c) _ (λ m k. (k.0, omega arith)))
                    (λ _.
                      load_or_fall_back-Ensures first.is_valid 0 first.generation (omega arith)))
                (λ _.
                  >>=-Ensures (λ _ w. IsSized c w.memory)
                    (assign-Ensures (IsSized c) (IsSized c) _ (λ m k. (k.0, omega arith)))
                    (λ _.
                      load_or_fall_back-Ensures second.is_valid 1 second.generation
                        (omega arith)))))

  mount_existing-Ensures :
      Ensures
        (λ (w : World S). IsSized c w.memory)
        (mount_existing c flash)
        (λ _ w. IsMounted c w.memory)
        (λ _ _. Unit)
  unfolding mount_existing
  mount_existing-Ensures =
      >>=-Ensures (λ _ w. IsSized c w.memory)
        (inspect_region-Ensures c flash (IsSized c) (λ e w h. tt) 0)
        (λ first.
          >>=-Ensures (λ _ w. IsSized c w.memory)
            (inspect_region-Ensures c flash (IsSized c) (λ e w h. tt) 1)
            (λ second. choose_region-Ensures first second))

  -- Whatever the flash holds and answers, a journal that `mount` hands out is mounted: its mirror
  -- has the full size and the next record goes inside the region that recovery has chosen.
  pub mount_lem : (mirror : Span ℕ) (s : S) → MountOutcome c (mount c flash mirror s)
  unfolding mount
  mount_lem mirror s =
      elim (Bool-cases (not (Span.valid mirror) || not (Span.size mirror == c.logical_capacity))) [
        | inl bad ↦ rw bad tt
        | inr good ↦
            let sized : length (Span.elements mirror) ≡ c.logical_capacity =
              length-elements mirror (ground (arith, good)) ∙ ground (arith, good) in
            rw good (
              handed_out (mount_existing c flash (fresh c flash (Span.elements mirror) s)) (
                mount_existing-Ensures.apply (fresh c flash (Span.elements mirror) s)
                  (sized, omega arith)))
      ]
    where
      handed_out :
          (out : Result Unit JournalError × World S)
          → Post (λ _ w. IsMounted c w.memory) (λ _ _. Unit) out
          → MountOutcome c
              (elim out.0 [ success _ ↦ success out.1.memory | failure e ↦ failure e ], out.1.flash)
      handed_out (success _, w) h = h
      handed_out (failure e, w) h = tt
