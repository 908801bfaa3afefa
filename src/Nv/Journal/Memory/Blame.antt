-- ===== src/Nv/Journal/Memory/Blame.antt =====
-- Whose fault it is when `write` fails on a request that it has to take.
use ecu_drivers.Prelude.{◌+◌, ◌<◌, ◌≡◌}
use ecu_drivers.Foundation.Word.{u64_max}
use ecu_drivers.Foundation.Result.{Result}
use ecu_drivers.Foundation.Span
use ecu_drivers.Foundation.Span.{Span}
use ecu_drivers.Foundation.Action.Rules.{Ensures}
use ecu_drivers.Nv.Journal.Error.{JournalError, JournalErrorSource}
use ecu_drivers.Nv.Journal.Monad.{JournalMemory, World, JournalAction}

-- the error is one that the flash has answered
abbrev IsFlashError : JournalError → Type 0
IsFlashError e = e.source ≡ JournalErrorSource.flash

-- The call succeeds, and the fields keep what is known of them, or the flash has failed.
abbrev Blames :
    {S A : Type 0}
    → (JournalMemory → Type 0)
    → JournalAction S A
    → (JournalMemory → Type 0)
    → Type 0
Blames {S} P m Q =
    Ensures (λ (w : World S). P w.memory) m (λ _ w. Q w.memory) (λ e _. IsFlashError e)

-- There are numbers left for a snapshot and a record.
abbrev pub IsYoung : JournalMemory → Type 0
IsYoung m = (m.generation < u64_max) × (m.last_sequence + 1 < u64_max)
