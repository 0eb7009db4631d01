-- ===== src/Float/Scalar.antt =====
-- The operations on floats of utils/itvUtils/floats_round.c, and the reading of a decimal number.
pub mod Sum
pub mod Product
pub mod Quotient
pub mod Convert
pub mod Integers
pub mod Parse
pub mod Rounding
pub mod Sign
mod Tests
