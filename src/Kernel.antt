-- ===== src/Kernel.antt =====
-- kdumptool/kernelpath.cc: the names of a kernel's files.
pub mod Path
pub mod Names
pub mod Search
pub mod Chosen
mod Tests
