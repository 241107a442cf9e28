-- ===== src/Url.antt =====
-- kdumptool/urlparser.cc: the URLs of dump targets.
pub mod Parser
pub mod Valid
pub mod Text
pub mod RoundTrip
mod Tests
