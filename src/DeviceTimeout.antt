-- ===== src/DeviceTimeout.antt =====
-- The systemd generator init/device-timeout-generator.c.
pub mod Args
pub mod Fstab
pub mod Unit
pub mod UnitName
pub mod Words
pub mod CommandLine
pub mod Escapes
pub mod Generator
mod Tests
