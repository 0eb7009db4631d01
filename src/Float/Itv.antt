-- ===== src/Float/Itv.antt =====
-- The interval arithmetic of utils/itvUtils/floats_round.c.
pub mod Defs
pub mod Bounds
pub mod Add
pub mod Sub
pub mod Mul
pub mod Divpos
pub mod Sum
pub mod Inner
pub mod Mulz
pub mod Product
pub mod Divz
pub mod Quotient
