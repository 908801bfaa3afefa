-- ===== src/Nv/Journal/Error.antt =====
-- `journal_error`: a portable memory error that keeps the flash error under it.
use ecu_drivers.Nv.Contract.{FlashErrorKind, MemoryErrorKind}

pub data JournalErrorSource : Type 0 where
  argument layout flash recovery : JournalErrorSource

pub record JournalError : Type 0 where
  pub kind : MemoryErrorKind
  pub source : JournalErrorSource
  pub flash_kind : FlashErrorKind

abbrev pub map_flash : FlashErrorKind → MemoryErrorKind
map_flash FlashErrorKind.out_of_range = MemoryErrorKind.out_of_range
map_flash FlashErrorKind.not_aligned = MemoryErrorKind.io
map_flash FlashErrorKind.program = MemoryErrorKind.io
map_flash FlashErrorKind.erase = MemoryErrorKind.io
map_flash FlashErrorKind.io = MemoryErrorKind.io
map_flash FlashErrorKind.other = MemoryErrorKind.other

abbrev pub argument_error : MemoryErrorKind → JournalError
argument_error kind = record {
  kind = kind;
  source = JournalErrorSource.argument;
  flash_kind = FlashErrorKind.other;
}

abbrev pub layout_error : MemoryErrorKind → JournalError
layout_error kind = record {
  kind = kind;
  source = JournalErrorSource.layout;
  flash_kind = FlashErrorKind.other;
}

abbrev pub flash_error : FlashErrorKind → JournalError
flash_error kind = record {
  kind = map_flash kind;
  source = JournalErrorSource.flash;
  flash_kind = kind;
}

abbrev pub recovery_error : JournalError
recovery_error = record {
  kind = MemoryErrorKind.corrupted;
  source = JournalErrorSource.recovery;
  flash_kind = FlashErrorKind.other;
}
