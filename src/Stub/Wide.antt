-- ===== src/Stub/Wide.antt =====
-- share/mopsa/stubs/c/libc/wchar.c: the stubs on wide characters and wide strings.
pub mod Chars
pub mod Length
pub mod Copying
pub mod Search
pub mod Block
pub mod Terminated
pub mod Numbers
mod Tests
