-- ===== src/Stub.antt =====
-- The stubs of share/mopsa/stubs/c: what the analyzer takes the functions of the C library to do.
pub mod Memory
pub mod Contract
pub mod Overwrite
pub mod Frame
pub mod Sample
pub mod Bytes
pub mod Text
pub mod Numbers
pub mod Random
pub mod Wide
pub mod Ctype
pub mod Multibyte
pub mod Search
