-- ===== src/Quote.antt =====
-- kdumptool/quotedstring.cc: the quoting of values for the shell and for the kernel command line.
pub mod Shell
pub mod ShellWord
pub mod Kernel
mod Tests
