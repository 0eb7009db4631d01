-- ===== src/Math/Exponent.antt =====
-- The functions of libc/math.c on the exponent of a float.
use mopsa_ocaml.Prelude.{ℤ, pos, negsuc, ◌⊎◌}
use mopsa_ocaml.Math.Floats.{Floats, Function, Writer, Valid, Infinite, Le, Lt, Eq, AtMost}

module _ (F : Floats) where
  unfoldable pub frexp : F.value → Writer ℤ F.value
  frexp x = record {
    requires = Valid F x;
    ensures = λ s r s'.
        ((Eq F (F.widen x) (F.num (pos 0)) → Eq F (F.widen r) (F.num (pos 0)))
          × (Lt F (F.num (pos 0)) (F.widen x)
              → Le F F.half (F.widen r) × Le F (F.widen r) (F.num (pos 1)))
          × (Lt F (F.widen x) (F.num (pos 0))
              → Le F (F.num (negsuc 0)) (F.widen r) × Le F (F.widen r) (F.negate F.half)))
        × (AtMost (negsuc 1072) s × AtMost s (pos 1024));
  }

  unfoldable pub frexpf : F.value → Writer ℤ F.value
  frexpf x = record {
    requires = Valid F x;
    ensures = λ s r s'.
        ((Eq F (F.widen x) (F.num (pos 0)) → Eq F (F.widen r) (F.num (pos 0)))
          × (Lt F (F.num (pos 0)) (F.widen x)
              → Le F F.half (F.widen r) × Le F (F.widen r) (F.num (pos 1)))
          × (Lt F (F.widen x) (F.num (pos 0))
              → Le F (F.num (negsuc 0)) (F.widen r) × Le F (F.widen r) (F.negate F.half)))
        × (AtMost (negsuc 147) s × AtMost s (pos 128));
  }

  unfoldable pub frexpl : F.value → Writer ℤ F.value
  frexpl x = record {
    requires = Valid F x;
    ensures = λ s r s'.
        ((Eq F (F.widen x) (F.num (pos 0)) → Eq F (F.widen r) (F.num (pos 0)))
          × (Lt F (F.num (pos 0)) (F.widen x)
              → Le F F.half (F.widen r) × Le F (F.widen r) (F.num (pos 1)))
          × (Lt F (F.widen x) (F.num (pos 0))
              → Le F (F.num (negsuc 0)) (F.widen r) × Le F (F.widen r) (F.negate F.half)))
        × (AtMost (negsuc 16491) s × AtMost s (pos 16384));
  }

  unfoldable pub ldexp : F.value → Function F.value
  ldexp x = record { requires = Valid F x; ensures = λ r. Valid F r ⊎ Infinite F r }

  unfoldable pub logb : F.value → Function F.value
  logb x = record {
    requires = Valid F x;
    ensures = λ r.
        Valid F r × (Le F (F.num (negsuc 1073)) (F.widen r) × Le F (F.widen r) (F.num (pos 1023)));
  }

  unfoldable pub logbf : F.value → Function F.value
  logbf x = record {
    requires = Valid F x;
    ensures = λ r.
        Valid F r × (Le F (F.num (negsuc 148)) (F.widen r) × Le F (F.widen r) (F.num (pos 127)));
  }

  unfoldable pub logbl : F.value → Function F.value
  logbl x = record {
    requires = Valid F x;
    ensures = λ r.
        Valid F r
        × (Le F (F.num (negsuc 16492)) (F.widen r) × Le F (F.widen r) (F.num (pos 16383)));
  }

  unfoldable pub significand : F.value → Function F.value
  significand x = record {
    requires = Valid F x;
    ensures = λ r. Valid F r × Le F (F.num (pos 1)) (F.widen r) × Lt F (F.widen r) (F.num (pos 2));
  }

  unfoldable pub scalbn : F.value → Function F.value
  scalbn x = record { requires = Valid F x; ensures = λ r. Valid F r ⊎ Infinite F r }

  unfoldable pub ilogb : F.value → Function ℤ
  ilogb x = record {
    requires = Valid F x × (¬ Eq F (F.widen x) (F.num (pos 0)));
    ensures = λ r. AtMost (negsuc 1073) r × AtMost r (pos 1023);
  }

  unfoldable pub ilogbf : F.value → Function ℤ
  ilogbf x = record {
    requires = Valid F x × (¬ Eq F (F.widen x) (F.num (pos 0)));
    ensures = λ r. AtMost (negsuc 148) r × AtMost r (pos 127);
  }

  unfoldable pub ilogbl : F.value → Function ℤ
  ilogbl x = record {
    requires = Valid F x × (¬ Eq F (F.widen x) (F.num (pos 0)));
    ensures = λ r. AtMost (negsuc 16492) r × AtMost r (pos 16383);
  }

  unfoldable pub llogb : F.value → Function ℤ
  llogb x = record {
    requires = Valid F x × (¬ Eq F (F.widen x) (F.num (pos 0)));
    ensures = λ r. AtMost (negsuc 1073) r × AtMost r (pos 1023);
  }

  unfoldable pub llogbf : F.value → Function ℤ
  llogbf x = record {
    requires = Valid F x × (¬ Eq F (F.widen x) (F.num (pos 0)));
    ensures = λ r. AtMost (negsuc 148) r × AtMost r (pos 127);
  }

  unfoldable pub llogbl : F.value → Function ℤ
  llogbl x = record {
    requires = Valid F x × (¬ Eq F (F.widen x) (F.num (pos 0)));
    ensures = λ r. AtMost (negsuc 16492) r × AtMost r (pos 16383);
  }

  unfoldable pub scalbln : F.value → Function F.value
  scalbln x = record { requires = Valid F x; ensures = λ r. Valid F r ⊎ Infinite F r }

  unfoldable pub scalb : F.value → F.value → Function F.value
  scalb x n = record { requires = Valid F x × Valid F n; ensures = λ r. Valid F r ⊎ Infinite F r }
