-- ===== src/Prelude/Integer.antt =====
-- The integers, over the native ℕ, and C's 64-bit negation.
use Prim.Native.Nat.{ℕ, zero, suc, ◌+◌, ◌-◌}
use mathlib.Core.Bool.{Bool, true, false}
use mopsa_ocaml.Prelude.Tests.{leb, ◌==◌, if◌then◌else◌}

-- `negsuc n` is -(n + 1).
pub data ℤ : Type 0 where
  pos : ℕ → ℤ
  negsuc : ℕ → ℤ

-- INT64_MIN, -2^63.
abbrev pub int64_min : ℤ
int64_min = negsuc 9223372036854775807

-- Negation in 64 bits, which gives INT64_MIN back.
abbrev pub negate64 : ℤ → ℤ
negate64 (pos zero) = pos zero
negate64 (pos (suc n)) = negsuc n
negate64 (negsuc n) = if n == 9223372036854775807 then negsuc n else pos (suc n)

abbrev pub is_negative : ℤ → Bool
is_negative (pos n) = false
is_negative (negsuc n) = true

-- The sum of two integers.
abbrev pub plus : ℤ → ℤ → ℤ
plus (pos a) (pos b) = pos (a + b)
plus (pos a) (negsuc b) = if leb a b then negsuc (b - a) else pos (a - b - 1)
plus (negsuc a) (pos b) = if leb b a then negsuc (a - b) else pos (b - a - 1)
plus (negsuc a) (negsuc b) = negsuc (a + b + 1)
