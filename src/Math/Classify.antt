-- ===== src/Math/Classify.antt =====
-- The tests of libc/math.c on one float.
use mathlib.Core.Path.{◌≡◌}
use mopsa_ocaml.Prelude.{ℤ, pos, negsuc, ◌≢◌}
use mopsa_ocaml.Math.Floats.{Floats, Function, Valid, Infinite, IsNan, Le, Lt, Eq, AtMost}

module _ (F : Floats) where
  unfoldable pub isinf : F.value → Function ℤ
  isinf value = record {
    requires = Unit;
    ensures = λ r.
        ((Infinite F value × Le F (F.num (pos 0)) (F.widen value)) → r ≡ pos 1)
        × ((Infinite F value × Le F (F.widen value) (F.num (pos 0))) → r ≡ negsuc 0)
        × ((¬ Infinite F value) → r ≡ pos 0);
  }

  unfoldable pub builtin_finite : F.value → Function ℤ
  builtin_finite value = record {
    requires = Unit;
    ensures = λ r. (Valid F value → r ≢ pos 0) × ((¬ Valid F value) → r ≡ pos 0);
  }

  unfoldable pub finite : F.value → Function ℤ
  finite value = record {
    requires = Unit;
    ensures = λ r. (Valid F value → r ≢ pos 0) × ((¬ Valid F value) → r ≡ pos 0);
  }

  unfoldable pub isnan : F.value → Function ℤ
  isnan value = record {
    requires = Unit;
    ensures = λ r. (IsNan F value → r ≢ pos 0) × ((¬ IsNan F value) → r ≡ pos 0);
  }

  unfoldable pub isnormal : F.value → Function ℤ
  isnormal value = record { requires = Unit; ensures = λ r. (¬ Valid F value) → r ≡ pos 0 }

  unfoldable pub fpclassify : F.value → Function ℤ
  fpclassify value = record {
    requires = Unit;
    ensures = λ r.
        (AtMost (pos 0) r × AtMost r (pos 4))
        × ((IsNan F value → r ≡ pos 0)
            × (Infinite F value → r ≡ pos 1)
            × (Eq F (F.widen value) (F.num (pos 0)) → r ≡ pos 3)
            × ((Valid F value × (¬ Eq F (F.widen value) (F.num (pos 0))))
                → AtMost (pos 3) r × AtMost r (pos 4)));
  }

  unfoldable pub signbit : F.value → Function ℤ
  signbit value = record {
    requires = Unit;
    ensures = λ r.
        (Lt F (F.widen value) (F.num (pos 0)) → r ≢ pos 0)
        × (Lt F (F.num (pos 0)) (F.widen value) → r ≡ pos 0);
  }
