-- ===== src/Math/Trigonometry.antt =====
-- The trigonometric and hyperbolic functions of libc/math.c.
use mopsa_ocaml.Prelude.{pos, negsuc, ◌⊎◌}
use mopsa_ocaml.Math.Floats.{Floats, Function, Writer, Valid, Infinite, Le, Lt, Eq}

module _ (F : Floats) where
  unfoldable pub acos : F.value → Function F.value
  acos x = record {
    requires = Valid F x × Le F (F.num (negsuc 0)) (F.widen x) × Le F (F.widen x) (F.num (pos 1));
    ensures = λ r. Valid F r × Le F (F.num (pos 0)) (F.widen r) × Le F (F.widen r) F.pi;
  }

  unfoldable pub asin : F.value → Function F.value
  asin x = record {
    requires = Valid F x × Le F (F.num (negsuc 0)) (F.widen x) × Le F (F.widen x) (F.num (pos 1));
    ensures = λ r. Valid F r × Le F (F.negate F.half_pi) (F.widen r) × Le F (F.widen r) F.half_pi;
  }

  unfoldable pub atan : F.value → Function F.value
  atan x = record {
    requires = Eq F (F.widen x) (F.widen x);
    ensures = λ r. Valid F r × Le F (F.negate F.half_pi) (F.widen r) × Le F (F.widen r) F.half_pi;
  }

  unfoldable pub atan2 : F.value → F.value → Function F.value
  atan2 y x = record {
    requires = Valid F x × Valid F y;
    ensures = λ r. Valid F r × Le F (F.negate F.pi) (F.widen r) × Le F (F.widen r) F.pi;
  }

  unfoldable pub cos : F.value → Function F.value
  cos x = record {
    requires = Valid F x;
    ensures =
        λ r. Valid F r × Le F (F.num (negsuc 0)) (F.widen r) × Le F (F.widen r) (F.num (pos 1));
  }

  unfoldable pub sin : F.value → Function F.value
  sin x = record {
    requires = Valid F x;
    ensures =
        λ r. Valid F r × Le F (F.num (negsuc 0)) (F.widen r) × Le F (F.widen r) (F.num (pos 1));
  }

  unfoldable pub tan : F.value → Function F.value
  tan x = record { requires = Valid F x; ensures = λ r. Valid F r ⊎ Infinite F r }

  unfoldable pub cosh : F.value → Function F.value
  cosh x = record {
    requires = Valid F x;
    ensures = λ r. Valid F r × Le F (F.num (pos 1)) (F.widen r);
  }

  unfoldable pub coshf : F.value → Function F.value
  coshf x = record {
    requires = Valid F x;
    ensures = λ r. (Valid F r ⊎ Infinite F r) × Le F (F.num (pos 1)) (F.widen r);
  }

  unfoldable pub sinh : F.value → Function F.value
  sinh x = record { requires = Valid F x; ensures = λ r. Valid F r ⊎ Infinite F r }

  unfoldable pub tanh : F.value → Function F.value
  tanh x = record {
    requires = Eq F (F.widen x) (F.widen x);
    ensures =
        λ r. Valid F r × Le F (F.num (negsuc 0)) (F.widen r) × Le F (F.widen r) (F.num (pos 1));
  }

  unfoldable pub sincos : F.value → Writer (F.value × F.value) (Unit {0})
  sincos x = record {
    requires = Valid F x;
    ensures = λ s r s'.
        (Le F (F.num (negsuc 0)) (F.widen s.0) × Le F (F.widen s.0) (F.num (pos 1)))
        × (Le F (F.num (negsuc 0)) (F.widen s.1) × Le F (F.widen s.1) (F.num (pos 1)));
  }

  unfoldable pub acosh : F.value → Function F.value
  acosh x = record {
    requires = Valid F x × Le F (F.num (pos 1)) (F.widen x);
    ensures = λ r. (Valid F r ⊎ Infinite F r) × Le F (F.num (pos 0)) (F.widen r);
  }

  unfoldable pub asinh : F.value → Function F.value
  asinh x = record { requires = Valid F x; ensures = λ r. Valid F r ⊎ Infinite F r }

  unfoldable pub atanh : F.value → Function F.value
  atanh x = record {
    requires = Valid F x × Lt F (F.num (negsuc 0)) (F.widen x) × Lt F (F.widen x) (F.num (pos 1));
    ensures = λ r. Valid F r ⊎ Infinite F r;
  }
