-- ===== src/Config.antt =====
-- The configuration that travels on the kernel command line: kdumptool/configparser.cc writes it
-- into variables, and kdumptool/dumpconfig.cc prints it.
pub mod KernelParser
pub mod Dump
pub mod RoundTrip
pub mod Losses
pub mod Options
pub mod Unchanged
mod Tests
mod OptionTests
