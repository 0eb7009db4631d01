-- ===== src/Stub/Text.antt =====
-- Strings: the str* stubs of share/mopsa/stubs/c/libc/string.c, strings.c and bsd/string.c.
pub mod Length
pub mod Copying
pub mod Measure
pub mod Terminated
pub mod Bounded
pub mod Find
pub mod Order
pub mod Found
mod Tests
mod Facts
