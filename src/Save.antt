-- ===== src/Save.antt =====
-- `SaveDump` of kdumptool/savedump.cc, and what it asks of the configuration.
pub mod Command
pub mod Steps
pub mod Reports
pub mod Parallel
pub mod Places
pub mod First
pub mod Tests
