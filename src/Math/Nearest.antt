-- ===== src/Math/Nearest.antt =====
-- The functions of libc/math.c that give an integral value.
use mopsa_ocaml.Prelude.{ℤ, pos, negsuc}
use mopsa_ocaml.Math.Floats.{Floats, Limits, Function, Writer, Valid, Le, Lt}

module _ (F : Floats) where
  unfoldable pub modf : F.value → Writer F.value F.value
  modf x = record {
    requires = Valid F x;
    ensures = λ s r s'.
        (Valid F r × Valid F s)
        × (Le F (F.num (pos 0)) (F.widen x)
            → Le F (F.num (pos 0)) (F.widen r)
              × Lt F (F.widen r) (F.num (pos 1))
              × Le F (F.num (pos 0)) (F.widen s)
              × Le F (F.widen s) (F.widen x)
              × Lt F (F.widen x) (F.plus (F.widen s) (F.num (pos 1))))
        × (Le F (F.widen x) (F.num (pos 0))
            → Le F (F.widen r) (F.num (pos 0))
              × Lt F (F.num (negsuc 0)) (F.widen r)
              × Lt F (F.minus (F.widen s) (F.num (pos 1))) (F.widen x)
              × Le F (F.widen x) (F.widen s)
              × Le F (F.widen s) (F.num (pos 0)));
  }

  unfoldable pub ceil : F.value → Function F.value
  ceil x = record {
    requires = Valid F x;
    ensures = λ r.
        Valid F r
        × (Le F (F.widen x) (F.widen r) × Lt F (F.widen r) (F.plus (F.widen x) (F.num (pos 1))));
  }

  unfoldable pub floor : F.value → Function F.value
  floor x = record {
    requires = Valid F x;
    ensures = λ r.
        Valid F r
        × (Lt F (F.minus (F.widen x) (F.num (pos 1))) (F.widen r) × Le F (F.widen r) (F.widen x));
  }

  unfoldable pub rint : F.value → Function F.value
  rint x = record {
    requires = Valid F x;
    ensures = λ r.
        Valid F r
        × (Le F (F.minus (F.widen x) F.half) (F.widen r)
            × Le F (F.widen r) (F.plus (F.widen x) F.half));
  }

  unfoldable pub nearbyint : F.value → Function F.value
  nearbyint x = record {
    requires = Valid F x;
    ensures = λ r.
        Valid F r
        × (Le F (F.minus (F.widen x) F.half) (F.widen r)
            × Le F (F.widen r) (F.plus (F.widen x) F.half));
  }

  unfoldable pub round : F.value → Function F.value
  round x = record {
    requires = Valid F x;
    ensures = λ r.
        Valid F r
        × (Le F (F.minus (F.widen x) F.half) (F.widen r)
            × Le F (F.widen r) (F.plus (F.widen x) F.half));
  }

  unfoldable pub trunc : F.value → Function F.value
  trunc x = record {
    requires = Valid F x;
    ensures = λ r.
        Valid F r
        × ((Le F (F.num (pos 0)) (F.widen x)
              → Le F (F.widen r) (F.widen x)
                × Lt F (F.widen x) (F.plus (F.widen r) (F.num (pos 1))))
            × (Le F (F.widen x) (F.num (pos 0))
                → Lt F (F.minus (F.widen r) (F.num (pos 1))) (F.widen x)
                  × Le F (F.widen x) (F.widen r)));
  }

  unfoldable pub lrint : Limits → F.value → Function ℤ
  lrint limits x = record {
    requires =
        Valid F x
        × Le F (F.num limits.long_min) (F.widen x)
        × Le F (F.widen x) (F.num limits.long_max);
    ensures = λ r.
        Lt F (F.minus (F.widen x) (F.num (pos 1))) (F.num r)
        × Lt F (F.num r) (F.plus (F.widen x) (F.num (pos 1)));
  }

  unfoldable pub llrint : Limits → F.value → Function ℤ
  llrint limits x = record {
    requires =
        Valid F x
        × Le F (F.num limits.llong_min) (F.widen x)
        × Le F (F.widen x) (F.num limits.llong_max);
    ensures = λ r.
        Lt F (F.minus (F.widen x) (F.num (pos 1))) (F.num r)
        × Lt F (F.num r) (F.plus (F.widen x) (F.num (pos 1)));
  }

  unfoldable pub lround : Limits → F.value → Function ℤ
  lround limits x = record {
    requires =
        Valid F x
        × Le F (F.num limits.long_min) (F.widen x)
        × Le F (F.widen x) (F.num limits.long_max);
    ensures = λ r.
        Le F (F.minus (F.widen x) F.half) (F.num r) × Le F (F.num r) (F.plus (F.widen x) F.half);
  }

  unfoldable pub llround : Limits → F.value → Function ℤ
  llround limits x = record {
    requires =
        Valid F x
        × Le F (F.num limits.llong_min) (F.widen x)
        × Le F (F.widen x) (F.num limits.llong_max);
    ensures = λ r.
        Le F (F.minus (F.widen x) F.half) (F.num r) × Le F (F.num r) (F.plus (F.widen x) F.half);
  }
