-- ===== src/Adapters.antt =====
-- include/hal/adapters: the small adapters over a contract.
pub mod Average
pub mod DutyCycle
pub mod ActiveLow
mod Tests
