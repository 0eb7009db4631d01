-- ===== src/Math/Order.antt =====
-- The functions of libc/math.c that compare floats or change their sign.
use mopsa_ocaml.Prelude.{pos, ◌⊎◌}
use mopsa_ocaml.Math.Floats.{Floats, Function, Valid, Infinite, Le, Eq}

module _ (F : Floats) where
  unfoldable pub fabs : F.value → Function F.value
  fabs x = record {
    requires = Valid F x;
    ensures = λ r.
        (Valid F r × Le F (F.num (pos 0)) (F.widen r))
        × ((Le F (F.num (pos 0)) (F.widen x) → Eq F (F.widen r) (F.widen x))
            × (Le F (F.widen x) (F.num (pos 0)) → Eq F (F.widen r) (F.negate (F.widen x))));
  }

  unfoldable pub copysign : F.value → F.value → Function F.value
  copysign x y = record {
    requires = Unit;
    ensures = λ r.
        ((Le F (F.num (pos 0)) (F.widen x) × Le F (F.num (pos 0)) (F.widen y))
          → Eq F (F.widen r) (F.widen x))
        × ((Le F (F.num (pos 0)) (F.widen x) × Le F (F.widen y) (F.num (pos 0)))
            → Eq F (F.widen r) (F.negate (F.widen x)))
        × ((Le F (F.widen x) (F.num (pos 0)) × Le F (F.num (pos 0)) (F.widen y))
            → Eq F (F.widen r) (F.negate (F.widen x)))
        × ((Le F (F.widen x) (F.num (pos 0)) × Le F (F.widen y) (F.num (pos 0)))
            → Eq F (F.widen r) (F.widen x));
  }

  unfoldable pub nextafter : F.value → F.value → Function F.value
  nextafter x y = record {
    requires = Valid F x × Valid F y;
    ensures = λ r.
        (Valid F r ⊎ Infinite F r)
        × ((Le F (F.widen x) (F.widen y) → Le F (F.widen x) (F.widen r))
            × (Le F (F.widen y) (F.widen x) → Le F (F.widen r) (F.widen x)));
  }

  unfoldable pub nextdown : F.value → Function F.value
  nextdown x = record {
    requires = Valid F x;
    ensures = λ r. (Valid F r ⊎ Infinite F r) × Le F (F.widen r) (F.widen x);
  }

  unfoldable pub nextup : F.value → Function F.value
  nextup x = record {
    requires = Valid F x;
    ensures = λ r. (Valid F r ⊎ Infinite F r) × Le F (F.widen x) (F.widen r);
  }

  unfoldable pub fdim : F.value → F.value → Function F.value
  fdim x y = record {
    requires = Valid F x × Valid F y;
    ensures = λ r. (Valid F r ⊎ Infinite F r) × Le F (F.num (pos 0)) (F.widen r);
  }

  unfoldable pub fmax : F.value → F.value → Function F.value
  fmax x y = record {
    requires = Valid F x × Valid F y;
    ensures = λ r.
        Valid F r
        × ((Le F (F.widen y) (F.widen x) → Eq F (F.widen r) (F.widen x))
            × (Le F (F.widen x) (F.widen y) → Eq F (F.widen r) (F.widen y)));
  }

  unfoldable pub fmin : F.value → F.value → Function F.value
  fmin x y = record {
    requires = Valid F x × Valid F y;
    ensures = λ r.
        Valid F r
        × ((Le F (F.widen x) (F.widen y) → Eq F (F.widen r) (F.widen x))
            × (Le F (F.widen y) (F.widen x) → Eq F (F.widen r) (F.widen y)));
  }

  unfoldable pub fma : F.value → F.value → F.value → Function F.value
  fma x y z = record {
    requires = Valid F x × Valid F y × Valid F z;
    ensures = λ r. Valid F r ⊎ Infinite F r;
  }
