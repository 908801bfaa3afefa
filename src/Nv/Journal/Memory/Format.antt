-- ===== src/Nv/Journal/Memory/Format.antt =====
-- `format` hands out a mounted journal that is erased.
use ecu_drivers.Prelude.{
  ℕ, ◌+◌, ◌≤◌, ◌≡◌, refl, ap, ◌∙◌, false, not, ◌||◌, arith, Bool-cases, inl, inr, length,
  length-replicate, ◌==◌,
}
use ecu_drivers.Foundation.Result.{Result, success, failure}
use ecu_drivers.Foundation.Span
use ecu_drivers.Foundation.Span.{Span, length-elements}
use ecu_drivers.Foundation.Action.Rules.{Post, Ensures, >>=-Ensures}
use ecu_drivers.Nv.Contract.{NorFlash}
use ecu_drivers.Nv.Journal.Error.{JournalError}
use ecu_drivers.Nv.Journal.Bytes.{fill_erased}
use ecu_drivers.Nv.Journal.Layout.{Config, IsConfig, region_start, region_end, record_area_offset}
use ecu_drivers.Nv.Journal.Monad.{JournalMemory, World}
use ecu_drivers.Nv.Journal.Storage.{
  erase_region, sync, write_region_header, write_region_commit, program_array,
}
use ecu_drivers.Nv.Journal.Memory.{format_storage, format, fresh}
use ecu_drivers.Nv.Journal.Memory.Mounted.{IsMounted, on_flash-Ensures, assign-Ensures}

-- What a new journal is: mounted, of the first generation, with an erased mirror and no record.
abbrev pub IsFormatted : Config → JournalMemory → Type 0
IsFormatted c m =
    IsMounted c m
    × (m.mirror ≡ fill_erased c.logical_capacity)
    × (m.generation ≡ 1)
    × (m.last_sequence ≡ 0)
    × (m.tail_unusable ≡ false)

abbrev pub FormatOutcome : {S : Type 0} → Config → Result JournalMemory JournalError × S → Type 0
FormatOutcome c (success m, _) = IsFormatted c m
FormatOutcome c (failure e, _) = Unit

module _ {S : Type 0} {c : Config} (ok : IsConfig c) (flash : NorFlash S) where
  abbrev Sized : JournalMemory → Type 0
  Sized m = length m.mirror ≡ c.logical_capacity

  in_first : region_start c 0 + record_area_offset c ≤ region_end c 0
  unfolding region_end
  in_first = omega (arith, ok.room)

  pub format_storage-Ensures :
      Ensures
        (λ (w : World S). Sized w.memory)
        (format_storage c flash)
        (λ _ w. IsFormatted c w.memory)
        (λ _ _. Unit)
  unfolding format_storage erase_region write_region_header write_region_commit sync program_array
  format_storage-Ensures =
      >>=-Ensures (λ _ w. Sized w.memory) (on_flash-Ensures Sized (λ e w h. tt) _)
        (λ _.
          >>=-Ensures (λ _ w. Sized w.memory) (on_flash-Ensures Sized (λ e w h. tt) _)
            (λ _.
              >>=-Ensures (λ _ w. IsFormatted c w.memory)
                (assign-Ensures Sized (IsFormatted c) _ (λ m h. erased m h))
                (λ _.
                  >>=-Ensures (λ _ w. IsFormatted c w.memory)
                    (on_flash-Ensures (IsFormatted c) (λ e w h. tt) _)
                    (λ _.
                      >>=-Ensures (λ _ w. IsFormatted c w.memory)
                        (on_flash-Ensures (IsFormatted c) (λ e w h. tt) _)
                        (λ _. on_flash-Ensures (IsFormatted c) (λ e w h. tt) _)))))
    where
      erased :
          (m : JournalMemory)
          → Sized m
          → IsFormatted c (record m {
            mirror = fill_erased (length m.mirror);
            generation = 1;
            last_sequence = 0;
            append_offset = region_start c 0 + record_area_offset c;
            active_region = 0;
            tail_unusable = false;
          })
      erased m h = (
        (
          omega (arith, length-replicate {A = ℕ} (length m.mirror) 0xFF, h),
          omega arith,
          omega arith,
          in_first,
        ),
        ap fill_erased h,
        refl,
        refl,
        refl,
      )

  -- A journal that `format` hands out is mounted, holds erased bytes alone, and is of the first
  -- generation, without a record and with a usable tail.
  pub format_lem : (mirror : Span ℕ) (s : S) → FormatOutcome c (format c flash mirror s)
  unfolding format
  format_lem mirror s =
      elim (Bool-cases (not (Span.valid mirror) || not (Span.size mirror == c.logical_capacity))) [
        | inl bad ↦ rw bad tt
        | inr good ↦
            let sized : length (Span.elements mirror) ≡ c.logical_capacity = size_of good in
            rw good (
              handed_out (format_storage c flash (fresh c flash (Span.elements mirror) s))
                (format_storage-Ensures.apply (fresh c flash (Span.elements mirror) s) sized))
      ]
    where
      size_of :
          (not (Span.valid mirror) || not (Span.size mirror == c.logical_capacity)) ≡ false
          → length (Span.elements mirror) ≡ c.logical_capacity
      size_of good = length-elements mirror (ground (arith, good)) ∙ ground (arith, good)

      handed_out :
          (out : Result Unit JournalError × World S)
          → Post (λ _ w. IsFormatted c w.memory) (λ _ _. Unit) out
          → FormatOutcome c
              (elim out.0 [ success _ ↦ success out.1.memory | failure e ↦ failure e ], out.1.flash)
      handed_out (success _, w) h = h
      handed_out (failure e, w) h = tt
