-- ===== src/Nv/Journal/Durable/Steps.antt =====
-- Contracts of erasing a region and of synchronising, where a failure promises nothing.
use ecu_drivers.Prelude.{ℕ, ◌≡◌, ◌∙◌, ap, List, replicate, store}
use ecu_drivers.Foundation.Result.{Result, success, failure, map_error}
use ecu_drivers.Foundation.Action.Rules.{Post, Ensures}
use ecu_drivers.Nv.Contract.{NorFlash, FlashErrorKind}
use ecu_drivers.Nv.Lawful.{IsLawful, EraseOutcome}
use ecu_drivers.Nv.Journal.Error.{JournalError, flash_error}
use ecu_drivers.Nv.Journal.Layout.{Config, region_start}
use ecu_drivers.Nv.Journal.Monad.{JournalMemory, World}
use ecu_drivers.Nv.Journal.Storage.{erase_region, sync}
use ecu_drivers.Nv.Journal.Durable.Rules.{Is}
use ecu_drivers.Nv.Journal.Durable.Seal.{blanked}

module _ {S : Type 0} {contents : S → List ℕ} {xs : List ℕ} {m : JournalMemory} (c : Config)
    (flash : NorFlash S) (law : IsLawful contents flash) where
  pub erase_region-Ensures :
      (region : ℕ)
      → Ensures
          (Is contents xs m)
          (erase_region c flash region)
          (λ _. Is contents (blanked c xs region) m)
          (λ _ _. Unit)
  unfolding erase_region
  erase_region-Ensures region = record {
    apply = λ w p.
        go w p (flash.erase (region_start c region) c.region_size w.flash)
          (law.erases (region_start c region) c.region_size w.flash);
  }
    where
      go :
          (w : World S)
          → Is contents xs m w
          → (out : Result Unit FlashErrorKind × S)
          → EraseOutcome contents (region_start c region) c.region_size w.flash out
          → Post
              (λ (_ : Unit). Is contents (blanked c xs region) m)
              (λ (_ : JournalError) _. Unit)
              (map_error flash_error out.0, record w { flash = out.1 })
      go w p (success _, s) o =
          (o ∙ ap (λ l. store l (region_start c region) (replicate c.region_size 0xFF)) p.0, p.1)
      go w p (failure e, s) o = tt

  pub sync-Ensures : Ensures (Is contents xs m) (sync c flash) (λ _. Is contents xs m) (λ _ _. Unit)
  unfolding sync
  sync-Ensures = record { apply = λ w p. go w p (flash.sync w.flash) (law.syncs w.flash) }
    where
      go :
          (w : World S)
          → Is contents xs m w
          → (out : Result Unit FlashErrorKind × S) → contents out.1 ≡ contents w.flash
          → Post
              (λ (_ : Unit). Is contents xs m)
              (λ (_ : JournalError) _. Unit)
              (map_error flash_error out.0, record w { flash = out.1 })
      go w p (success _, s) o = (o ∙ p.0, p.1)
      go w p (failure e, s) o = tt
