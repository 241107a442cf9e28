-- ===== src/Kconfig.antt =====
-- kdumptool/kconfig.cc: a kernel's configuration.
pub mod Value
pub mod Lines
pub mod File
mod Tests
