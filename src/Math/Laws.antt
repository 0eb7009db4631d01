-- ===== src/Math/Laws.antt =====
-- What the theorems on libc/math.c rely on: C's comparisons of floats (IEEE 754).
use mopsa_ocaml.Prelude.{pos, ◌⊎◌}
use mopsa_ocaml.Math.Floats.{Floats, Valid, Infinite, Le, Lt, Eq}

-- Comparisons, for values that are not NaN.
pub record IsOrdered (F : Floats) : Type 0 where
  pub le_total :
      (x y : F.value)
      → Valid F x
      → Valid F y
      → Le F (F.widen x) (F.widen y) ⊎ Le F (F.widen y) (F.widen x)
  pub le_trans : (a b c : F.wide) → Le F a b → Le F b c → Le F a c
  pub eq_le : (a b : F.wide) → Eq F a b → Le F a b
  pub eq_sym : (a b : F.wide) → Eq F a b → Eq F b a
  pub eq_trans : (a b c : F.wide) → Eq F a b → Eq F b c → Eq F a c
  pub lt_le : (a b : F.wide) → Lt F a b → Le F a b

-- Zero, which all finite and infinite values compare with.
pub record IsSigned (F : Floats) : Type 0 where
  pub finite_sign :
      (x : F.value)
      → Valid F x
      → Le F (F.num (pos 0)) (F.widen x) ⊎ Le F (F.widen x) (F.num (pos 0))
  pub infinite_sign :
      (x : F.value)
      → Infinite F x
      → Le F (F.num (pos 0)) (F.widen x) ⊎ Le F (F.widen x) (F.num (pos 0))
  pub eq_zero :
      (a : F.wide) → Le F (F.num (pos 0)) a → Le F a (F.num (pos 0)) → Eq F a (F.num (pos 0))
  pub apart : (a : F.wide) → Lt F (F.num (pos 0)) a → ¬ Eq F a (F.negate a)
