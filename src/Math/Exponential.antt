-- ===== src/Math/Exponential.antt =====
-- Powers, roots and logarithms of libc/math.c.
use mopsa_ocaml.Prelude.{pos, negsuc, ◌⊎◌}
use mopsa_ocaml.Math.Floats.{Floats, Function, Valid, Infinite, Le, Lt}

module _ (F : Floats) where
  unfoldable pub exp : F.value → Function F.value
  exp x = record {
    requires = Valid F x;
    ensures = λ r. (Valid F r ⊎ Infinite F r) × Le F (F.num (pos 0)) (F.widen r);
  }

  unfoldable pub log : F.value → Function F.value
  log x = record {
    requires = Valid F x × Lt F (F.num (pos 0)) (F.widen x);
    ensures = λ r. Valid F r ⊎ Infinite F r;
  }

  unfoldable pub log10 : F.value → Function F.value
  log10 x = record {
    requires = Valid F x × Lt F (F.num (pos 0)) (F.widen x);
    ensures = λ r. Valid F r ⊎ Infinite F r;
  }

  unfoldable pub exp10 : F.value → Function F.value
  exp10 x = record {
    requires = Valid F x;
    ensures = λ r. (Valid F r ⊎ Infinite F r) × Le F (F.num (pos 0)) (F.widen r);
  }

  unfoldable pub expm1 : F.value → Function F.value
  expm1 x = record {
    requires = Valid F x;
    ensures = λ r. (Valid F r ⊎ Infinite F r) × Le F (F.num (negsuc 0)) (F.widen r);
  }

  unfoldable pub log1p : F.value → Function F.value
  log1p x = record {
    requires = Valid F x × Lt F (F.num (negsuc 0)) (F.widen x);
    ensures = λ r. Valid F r ⊎ Infinite F r;
  }

  unfoldable pub exp2 : F.value → Function F.value
  exp2 x = record {
    requires = Valid F x;
    ensures = λ r. (Valid F r ⊎ Infinite F r) × Le F (F.num (pos 0)) (F.widen r);
  }

  unfoldable pub log2 : F.value → Function F.value
  log2 x = record {
    requires = Valid F x × Lt F (F.num (pos 0)) (F.widen x);
    ensures = λ r. Valid F r ⊎ Infinite F r;
  }

  unfoldable pub pow : F.value → F.value → Function F.value
  pow x y = record { requires = Valid F x × Valid F y; ensures = λ r. Unit }

  unfoldable pub sqrt : F.value → Function F.value
  sqrt x = record {
    requires = Valid F x × Le F (F.num (pos 0)) (F.widen x);
    ensures = λ r.
        (Valid F r × Le F (F.num (pos 0)) (F.widen r))
        × (Le F (F.num (pos 1)) (F.widen x) → Le F (F.widen r) (F.widen x))
        × (Le F (F.widen x) (F.num (pos 1)) → Le F (F.widen r) (F.num (pos 1)));
  }

  unfoldable pub hypot : F.value → F.value → Function F.value
  hypot x y = record {
    requires = Valid F x × Valid F y;
    ensures = λ r. (Valid F r ⊎ Infinite F r) × Le F (F.num (pos 0)) (F.widen r);
  }

  unfoldable pub cbrt : F.value → Function F.value
  cbrt x = record { requires = Valid F x; ensures = λ r. Valid F r }
