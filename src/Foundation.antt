-- ===== src/Foundation.antt =====
-- include/hal/foundation: the types and small utilities that every contract and adapter uses.
pub mod Word
pub mod Result
pub mod Span
pub mod Action
pub mod Crc32
pub mod Deadline
mod Tests
