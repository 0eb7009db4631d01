-- ===== src/Float/Tiny.antt =====
-- A float format in miniature that obeys the laws of Laws: signed zeros, ones and infinities, and
-- NaN. One plus one overflows, so the rounding modes differ.
mod Table
mod Check
mod Arithmetic
mod Math
pub use Table.{Size, none, one, all, Tiny, nan, num, tiny}
pub use Arithmetic.*
pub use Math.{tiny_math, tiny_math-IsSigned, plain_runtime}
