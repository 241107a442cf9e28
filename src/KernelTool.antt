-- ===== src/KernelTool.antt =====
-- kdumptool/kerneltool.cc: what a kernel's image says of itself.
pub mod Ikconfig
pub mod Windows
pub mod Search
pub mod Extracted
pub mod Embedded
pub mod Unseen
pub mod Image
pub mod Header
pub mod Relocatable
pub mod Configured
pub mod Identify
mod Tests
