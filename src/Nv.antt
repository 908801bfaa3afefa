-- ===== src/Nv.antt =====
-- include/hal/contracts/nv.hpp and the journal over it.
pub mod Contract
pub mod Lawful
pub mod Journal
