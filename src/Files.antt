-- ===== src/Files.antt =====
-- The file names and directories of kdumptool/fileutil.cc, and kdumptool/deletedumps.cc.
pub mod Names
pub mod Canonical
pub mod Below
pub mod Dirs
pub mod Delete
pub mod Oldest
pub mod Order
pub mod Ancestors
mod Tests
