-- ===== src/Math/Remainder.antt =====
-- The remainders of libc/math.c.
use mopsa_ocaml.Prelude.{pos}
use mopsa_ocaml.Math.Floats.{Floats, Function, Valid, Le, Lt, Eq}

module _ (F : Floats) where
  unfoldable pub fmod : F.value → F.value → Function F.value
  fmod x y = record {
    requires = (Valid F x × Valid F y) × (¬ Eq F (F.widen y) (F.num (pos 0)));
    ensures = λ r.
        Valid F r
        × (((Le F (F.num (pos 0)) (F.widen x) × Le F (F.num (pos 0)) (F.widen y))
              → Le F (F.num (pos 0)) (F.widen r) × Lt F (F.widen r) (F.widen y))
            × ((Le F (F.num (pos 0)) (F.widen x) × Le F (F.widen y) (F.num (pos 0)))
                → Le F (F.num (pos 0)) (F.widen r) × Lt F (F.widen r) (F.negate (F.widen y)))
            × ((Le F (F.widen x) (F.num (pos 0)) × Le F (F.num (pos 0)) (F.widen y))
                → Le F (F.widen r) (F.num (pos 0)) × Le F (F.negate (F.widen y)) (F.widen r))
            × ((Le F (F.widen x) (F.num (pos 0)) × Le F (F.widen y) (F.num (pos 0)))
                → Le F (F.widen r) (F.num (pos 0)) × Le F (F.widen y) (F.widen r)));
  }

  unfoldable pub fmodf : F.value → F.value → Function F.value
  fmodf x y = record {
    requires = (Valid F x × Valid F y) × (¬ Eq F (F.widen y) (F.num (pos 0)));
    ensures = λ r.
        Valid F r
        × (((Le F (F.num (pos 0)) (F.widen x) × Le F (F.num (pos 0)) (F.widen y))
              → Le F (F.num (pos 0)) (F.widen r) × Lt F (F.widen r) (F.widen y))
            × (¬ (Le F (F.num (pos 0)) (F.widen x) × Le F (F.num (pos 0)) (F.widen y))
                → ((Le F (F.num (pos 0)) (F.widen x) × Le F (F.widen y) (F.num (pos 0)))
                    → Le F (F.num (pos 0)) (F.widen r) × Lt F (F.widen r) (F.negate (F.widen y)))
                  × (¬ (Le F (F.num (pos 0)) (F.widen x) × Le F (F.widen y) (F.num (pos 0)))
                      → ((Le F (F.widen x) (F.num (pos 0)) × Le F (F.num (pos 0)) (F.widen y))
                          → Le F (F.widen r) (F.num (pos 0))
                            × Le F (F.negate (F.widen y)) (F.widen r))
                        × (¬ (Le F (F.widen x) (F.num (pos 0)) × Le F (F.num (pos 0)) (F.widen y))
                            → Le F (F.widen r) (F.num (pos 0)) × Le F (F.widen y) (F.widen r)))));
  }

  unfoldable pub fmodl : F.value → F.value → Function F.value
  fmodl x y = record {
    requires = (Valid F x × Valid F y) × (¬ Eq F (F.widen y) (F.num (pos 0)));
    ensures = λ r.
        Valid F r
        × (((Le F (F.num (pos 0)) (F.widen x) × Le F (F.num (pos 0)) (F.widen y))
              → Le F (F.num (pos 0)) (F.widen r) × Lt F (F.widen r) (F.widen y))
            × ((Le F (F.num (pos 0)) (F.widen x) × Le F (F.widen y) (F.num (pos 0)))
                → Le F (F.num (pos 0)) (F.widen r) × Lt F (F.widen r) (F.negate (F.widen y)))
            × ((Le F (F.widen x) (F.num (pos 0)) × Le F (F.num (pos 0)) (F.widen y))
                → Le F (F.widen r) (F.num (pos 0)) × Le F (F.negate (F.widen y)) (F.widen r))
            × ((Le F (F.widen x) (F.num (pos 0)) × Le F (F.widen y) (F.num (pos 0)))
                → Le F (F.widen r) (F.num (pos 0)) × Le F (F.widen y) (F.widen r)));
  }

  unfoldable pub drem : F.value → F.value → Function F.value
  drem x y = record {
    requires = (Valid F x × Valid F y) × (¬ Eq F (F.widen y) (F.num (pos 0)));
    ensures = λ r.
        Valid F r
        × ((Le F (F.num (pos 0)) (F.widen y)
              → Le F (F.negate (F.widen y)) (F.widen r) × Lt F (F.widen r) (F.widen y))
            × (Le F (F.widen y) (F.num (pos 0))
                → Le F (F.widen y) (F.widen r) × Lt F (F.widen r) (F.negate (F.widen y))));
  }

  unfoldable pub remainder : F.value → F.value → Function F.value
  remainder x y = record {
    requires = (Valid F x × Valid F y) × (¬ Eq F (F.widen y) (F.num (pos 0)));
    ensures = λ r.
        Valid F r
        × ((Le F (F.num (pos 0)) (F.widen y)
              → Le F (F.negate (F.widen y)) (F.widen r) × Lt F (F.widen r) (F.widen y))
            × (Le F (F.widen y) (F.num (pos 0))
                → Le F (F.widen y) (F.widen r) × Lt F (F.widen r) (F.negate (F.widen y))));
  }

  unfoldable pub remquo : F.value → F.value → Function F.value
  remquo x y = record {
    requires = Valid F x × Valid F y × (¬ Eq F (F.widen y) (F.num (pos 0)));
    ensures = λ r.
        Valid F r
        × ((Le F (F.num (pos 0)) (F.widen y)
              → Le F (F.negate (F.widen y)) (F.widen r) × Lt F (F.widen r) (F.widen y))
            × (Le F (F.widen y) (F.num (pos 0))
                → Le F (F.widen y) (F.widen r) × Lt F (F.widen r) (F.negate (F.widen y))));
  }
