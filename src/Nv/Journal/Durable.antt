-- ===== src/Nv/Journal/Durable.antt =====
-- What a journal over a lawful flash keeps: its records as a list of entries, the mirror as what
-- those entries write one after the other.
pub mod Rules
pub mod Entries
pub mod Chunks
pub mod Load
pub mod Changes
pub mod Program
pub mod Append
pub mod Region
pub mod Recovery
pub mod State
pub mod Appending
pub mod Seal
pub mod Steps
pub mod Compaction
pub mod Survival
pub mod Formatting
mod Tests
