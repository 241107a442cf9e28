-- ===== src/KString.antt =====
-- kdumptool/stringutil.cc and kdumptool/stringvector.cc: `StringUtil::hex2int`, the operations of
-- `KString` and `StringVector::join`. Strings are lists of bytes; an operation that changes the
-- string in place returns the new one.
pub mod Search
pub mod Url
pub mod Split
pub mod Trim
pub mod Number
mod Tests
