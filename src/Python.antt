-- ===== src/Python.antt =====
-- share/mopsa/stubs/cpython: the C functions by which the analyzer replaces parts of CPython's C API.
pub mod State
pub mod Errors
pub mod Index
pub mod Wrappers
pub mod Slots
pub mod Members
pub mod Iterate
pub mod Objects
pub mod Convert
pub mod Facts
pub mod Attributes
pub mod Results
pub mod Types
pub mod Ready
mod Tests
