-- ===== src/Ints.antt =====
-- Integer value domains of utils/itvUtils, over Zarith's integers.
pub mod Zarith
pub mod Bound
pub mod Interval
pub mod Loops
pub mod Sample
mod Tests
