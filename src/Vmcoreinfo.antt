-- ===== src/Vmcoreinfo.antt =====
-- kdumptool/vmcoreinfo.cc: what a crashed kernel says of itself.
pub mod Info
pub mod Notes
pub mod Walk
pub mod Encoded
pub mod Segment
pub mod Lines
mod Tests
