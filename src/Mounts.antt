-- ===== src/Mounts.antt =====
-- kdumptool/mounts.cc: the mount that a path is on, the system's root device, and the file systems of
-- the block devices.
pub mod Table
pub mod Longest
pub mod Choice
pub mod Root
pub mod Devices
pub mod Rows
pub mod Parameter
pub mod Tests
