-- ===== src/Devices/St7735.antt =====
-- devices/include/hal/devices/st7735.hpp, `St7735`: a display controller on a bus with a chip select
-- and a data/command line.
pub mod Panel
pub mod Driver
pub mod Window
pub mod Initialized
mod Tests
