-- ===== src/Float/Tiny/Math.antt =====
-- Functions and conversions for the format in miniature, in which every float is an integer.
use mopsa_ocaml.Prelude.{ℕ, ℤ, pos, negsuc, zero, suc, refl, true, false}
use mopsa_ocaml.Float.Fpu.{Mode, near, up, down, toward_zero, ◌≼◌}
use mopsa_ocaml.Float.Math.{Math, Runtime, IsSigned}
use mopsa_ocaml.Float.Tiny.Table.{Size, none, one, all, Tiny, nan, num, tiny}

-- What rounds to one or to infinity.
abbrev above_one : Mode → Size
above_one near = all
above_one up = all
above_one down = one
above_one toward_zero = one

abbrev below_minus_one : Mode → Size
below_minus_one near = all
below_minus_one up = one
below_minus_one down = all
below_minus_one toward_zero = one

abbrev of_int : Mode → ℤ → Tiny
of_int m (pos zero) = num false none
of_int m (pos (suc zero)) = num false one
of_int m (pos (suc (suc n))) = num false (above_one m)
of_int m (negsuc zero) = num true one
of_int m (negsuc (suc n)) = num true (below_minus_one m)

abbrev to_int : Tiny → ℤ
to_int (num false one) = pos 1
to_int (num true one) = negsuc 0
to_int _ = pos 0

abbrev square_root : Tiny → Tiny
square_root (num true one) = nan
square_root (num true all) = nan
square_root a = a

-- The remainder by one is zero, that by infinity is the number.
abbrev remainder : Tiny → Tiny → Tiny
remainder nan b = nan
remainder a nan = nan
remainder (num s all) b = nan
remainder a (num t none) = nan
remainder a (num t all) = a
remainder (num s x) b = num s none

abbrev power_of_ten : Mode → ℤ → Tiny
power_of_ten m (pos zero) = num false one
power_of_ten m (pos (suc n)) = num false (above_one m)
power_of_ten m (negsuc n) = num false none

abbrev pub tiny_math : Math Tiny
tiny_math = record {
  fmod = remainder;
  sqrt = λ m. square_root;
  rint = λ m a. a;
  llrint = λ m. to_int;
  truncate = to_int;
  of_int = of_int;
  pow10 = power_of_ten;
}

nonpos : (m : Mode) (n : ℕ) → of_int m (negsuc n) ≼ num false none
nonpos m zero = refl
nonpos near (suc n) = refl
nonpos up (suc n) = refl
nonpos down (suc n) = refl
nonpos toward_zero (suc n) = refl

pub tiny_math-IsSigned : IsSigned tiny_math
tiny_math-IsSigned = record { of_int_nonpos = nonpos }

-- Integers that stand for themselves.
abbrev pub plain_runtime : Runtime ℤ
plain_runtime = record {
  int64_val = λ v. v;
  copy_int64 = λ v. v;
  long_val = λ v. v;
  val_long = λ v. v;
}
