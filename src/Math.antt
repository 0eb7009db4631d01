-- ===== src/Math.antt =====
-- The stubs of share/mopsa/stubs/c/libc/math.c.
pub mod Floats
pub mod Trigonometry
pub mod Exponential
pub mod Exponent
pub mod Nearest
pub mod Remainder
pub mod Classify
pub mod Order
pub mod Special
pub mod Laws
pub mod Facts
mod Tests
