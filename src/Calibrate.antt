-- ===== src/Calibrate.antt =====
-- kdumptool/calibrate.cc: the memory map, and the sizes that `calibrate` reserves.
pub mod MemMap
pub mod Blocks
pub mod Largest
pub mod Reserve
pub mod Covers
pub mod Cpus
pub mod Slabs
pub mod Hyper
pub mod Guest
pub mod Framebuffers
pub mod SlabMark
pub mod SlabText
pub mod Numbers
pub mod Ranges
mod Tests
