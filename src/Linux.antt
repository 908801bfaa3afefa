-- ===== src/Linux.antt =====
-- The Linux platform under platforms/linux.
pub mod Io
pub mod Terminates
pub mod Stream
pub mod Nv
