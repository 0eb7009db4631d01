-- ===== src/Math/Floats.antt =====
-- The float types of C, float, double and long double, as the contracts of libc/math.c see them.
use mathlib.Core.Path.{◌≡◌}
use mopsa_ocaml.Prelude.{ℤ, pos, negsuc, ◌≤◌, Bool, true}

-- `valid_float`, `float_inf` and `float_nan` tell these apart.
pub data Class : Type 0 where
  finite infinite nan : Class

-- A float type, and the type that C converts its values to where an expression has doubles too: a
-- float becomes a double, the others stay as they are.
pub record Floats : Type 1 where
  pub value : Type 0
  pub wide : Type 0
  pub widen : value → wide
  pub class : value → Class
  pub le : wide → wide → Bool
  pub lt : wide → wide → Bool
  pub eq : wide → wide → Bool
  pub plus : wide → wide → wide
  pub minus : wide → wide → wide
  pub negate : wide → wide
  pub num : ℤ → wide
  pub half : wide
  pub pi : wide
  pub half_pi : wide

-- Of limits.h.
pub record Limits : Type 0 where
  pub long_min : ℤ
  pub long_max : ℤ
  pub llong_min : ℤ
  pub llong_max : ℤ

-- The contract of a function of its arguments.
pub record Function (R : Type 0) : Type 1 where
  pub requires : Type 0
  pub ensures : R → Type 0

-- The contract of a function that assigns what its pointer arguments point to: the values before the
-- call, the result, and the values after it.
pub record Writer (S R : Type 0) : Type 1 where
  pub requires : Type 0
  pub ensures : S → R → S → Type 0

module _ (F : Floats) where
  abbrev pub Valid : F.value → Type 0
  Valid x = F.class x ≡ finite

  abbrev pub Infinite : F.value → Type 0
  Infinite x = F.class x ≡ infinite

  abbrev pub IsNan : F.value → Type 0
  IsNan x = F.class x ≡ nan

  abbrev pub Le : F.wide → F.wide → Type 0
  Le a b = F.le a b ≡ true

  abbrev pub Lt : F.wide → F.wide → Type 0
  Lt a b = F.lt a b ≡ true

  abbrev pub Eq : F.wide → F.wide → Type 0
  Eq a b = F.eq a b ≡ true

-- `<=` on C's integers.
abbrev pub AtMost : ℤ → ℤ → Type 0
AtMost (pos a) (pos b) = a ≤ b
AtMost (pos a) (negsuc b) = ⊥
AtMost (negsuc a) (pos b) = Unit
AtMost (negsuc a) (negsuc b) = b ≤ a
