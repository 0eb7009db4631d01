-- ===== src/Stub/Bytes.antt =====
-- Byte blocks: the mem* stubs of share/mopsa/stubs/c/libc/string.c and strings.c.
pub mod Defs
pub mod Fill
pub mod Copy
pub mod Search
pub mod Compare
mod Tests
