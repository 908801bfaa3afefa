-- ===== src/Spi.antt =====
-- include/hal/contracts/{spi,spi_bus,gpio}.hpp and the device adapter over a bus.
pub mod Contract
pub mod Trace
pub mod StaticDevice
mod Tests
