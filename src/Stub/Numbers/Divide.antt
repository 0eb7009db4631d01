-- ===== src/Stub/Numbers/Divide.antt =====
-- The arithmetic of share/mopsa/stubs/c/libc/stdlib.c and inttypes.c: absolute values and divisions.
-- The division of a formula has the type of its arguments, and wraps around where it overflows.
use mathlib.Core.Path.{◌≡◌}
use Prim.Native.Nat.{◌/◌, ◌%◌}
use mopsa_ocaml.Prelude.{
  ℕ, zero, suc, ℤ, pos, negsuc, ◌+◌, ◌-◌, ◌*◌, ◌<◌, ◌≢◌, false, true, leb, if◌then◌else◌,
}
use mopsa_ocaml.Prelude.Integer.{is_negative}
use mopsa_ocaml.Math.Floats.{Function}

-- `div_t`, `ldiv_t`, `lldiv_t` and `imaxdiv_t`.
pub record Division : Type 0 where
  pub quot : ℤ
  pub rem : ℤ

abbrev pub negated : ℕ → ℤ
negated zero = pos zero
negated (suc n) = negsuc n

abbrev pub minus : ℤ → ℤ
minus (pos n) = negated n
minus (negsuc n) = pos (suc n)

-- `/` of C, which rounds to zero. With 0 it is not used.
abbrev pub quotient : ℤ → ℤ → ℤ
quotient (pos a) (pos b) = pos (a / b)
quotient (pos a) (negsuc b) = negated (a / suc b)
quotient (negsuc a) (pos b) = negated (suc a / b)
quotient (negsuc a) (negsuc b) = pos (suc a / suc b)

-- `%` of C, with the sign of the first argument.
abbrev pub remainder : ℤ → ℤ → ℤ
remainder (pos a) (pos b) = pos (a % b)
remainder (pos a) (negsuc b) = pos (a % suc b)
remainder (negsuc a) (pos b) = negated (suc a % b)
remainder (negsuc a) (negsuc b) = negated (suc a % suc b)

-- `x > - least - 1`.
abbrev pub Above : ℕ → ℤ → Type 0
Above least (pos n) = Unit
Above least (negsuc n) = n < least

-- INT_MAX, and LONG_MAX, LLONG_MAX and INTMAX_MAX.
abbrev pub int_max : ℕ
int_max = 2147483647

abbrev pub long_max : ℕ
long_max = 9223372036854775807

-- `wrap_expr` on the range from - bound - 1 to bound: the value of the range that differs by a
-- multiple of its size.
abbrev pub of_residue : ℕ → ℕ → ℤ
of_residue bound r = if leb r bound then pos r else negsuc (2 * bound + 1 - r)

unfoldable pub wrap_expr : ℕ → ℤ → ℤ
wrap_expr bound (pos n) = of_residue bound (n % (2 * bound + 2))
wrap_expr bound (negsuc n) = of_residue bound (2 * bound + 1 - n % (2 * bound + 2))

-- What div and the others ensure. A remainder does not overflow.
unfoldable pub IsDivided : ℕ → ℤ → ℤ → Division → Type 0
unfolding wrap_expr
IsDivided bound numer denom r =
    (r.quot ≡ wrap_expr bound (quotient numer denom)) × (r.rem ≡ remainder numer denom)

-- What abs and the others ensure.
abbrev pub IsAbs : ℤ → ℤ → Type 0
IsAbs x r = (is_negative x ≡ false → r ≡ x) × (is_negative x ≡ true → r ≡ minus x)

unfoldable pub abs : ℤ → Function ℤ
abs x = record { requires = Above int_max x; ensures = IsAbs x }

unfoldable pub labs : ℤ → Function ℤ
labs x = record { requires = Above long_max x; ensures = IsAbs x }

unfoldable pub llabs : ℤ → Function ℤ
llabs x = record { requires = Above long_max x; ensures = IsAbs x }

unfoldable pub imaxabs : ℤ → Function ℤ
imaxabs n = record { requires = Above long_max n; ensures = IsAbs n }

unfoldable pub div : ℤ → ℤ → Function Division
unfolding IsDivided
div numer denom = record {
  requires = (denom ≢ pos 0) × Above int_max denom;
  ensures = IsDivided int_max numer denom;
}

unfoldable pub ldiv : ℤ → ℤ → Function Division
unfolding IsDivided
ldiv numer denom = record {
  requires = (denom ≢ pos 0) × Above long_max denom;
  ensures = IsDivided long_max numer denom;
}

unfoldable pub lldiv : ℤ → ℤ → Function Division
unfolding IsDivided
lldiv numer denom = record {
  requires = (denom ≢ pos 0) × Above long_max denom;
  ensures = IsDivided long_max numer denom;
}

unfoldable pub imaxdiv : ℤ → ℤ → Function Division
unfolding IsDivided
imaxdiv numer denom = record {
  requires = (denom ≢ pos 0) × Above long_max denom;
  ensures = IsDivided long_max numer denom;
}
