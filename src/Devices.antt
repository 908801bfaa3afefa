-- ===== src/Devices.antt =====
-- devices/include/hal/devices: drivers of external chips over the contracts.
pub mod St7735
