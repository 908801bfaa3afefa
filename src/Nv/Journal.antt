-- ===== src/Nv/Journal.antt =====
-- include/hal/adapters/nv_journal_memory.hpp, `JournalMemory`: a power-loss-recoverable byte memory
-- in two append-only flash regions.
pub mod Error
pub mod Bytes
pub mod Layout
pub mod Headers
pub mod Monad
pub mod Storage
pub mod Recover
pub mod Memory
pub mod Durable
pub mod Example
mod Tests
