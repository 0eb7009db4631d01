-- ===== src/Float.antt =====
-- utils/itvUtils/floats_round.c: float arithmetic with directed rounding, on scalars and intervals.
pub mod Fpu
pub mod Laws
pub mod Tiny
pub mod Itv
pub mod Math
pub mod Scalar
mod Tests
