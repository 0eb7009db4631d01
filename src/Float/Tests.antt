-- ===== src/Float/Tests.antt =====
-- Runs and instances of the interval arithmetic of utils/itvUtils/floats_round.c, on the float format
-- in miniature.
use mopsa_ocaml.Prelude.{◌≡◌, refl, true, false}
use mopsa_ocaml.Float.Fpu.{near, up, down, toward_zero, IsNum}
use mopsa_ocaml.Float.Tiny.{
  none, one, all, Tiny, num, tiny, Tiny-IsOrdered, Tiny-IsAddition, Tiny-IsMultiplication,
  Tiny-IsDivision,
}
use mopsa_ocaml.Float.Itv.Defs.{Itv, Contains, set_l, set_u, greatest}
use mopsa_ocaml.Float.Itv.Add.{ml_add_dbl_itv_outer}
use mopsa_ocaml.Float.Itv.Sub.{ml_sub_dbl_itv_outer}
use mopsa_ocaml.Float.Itv.Mul.{ml_mul_dbl_itv_outer}
use mopsa_ocaml.Float.Itv.Divpos.{ml_divpos_dbl_itv_outer}
use mopsa_ocaml.Float.Itv.Sum.{ml_add_dbl_itv_outer-Contains, ml_sub_dbl_itv_outer-Contains}
use mopsa_ocaml.Float.Itv.Product.{ml_mul_dbl_itv_outer-Contains}
use mopsa_ocaml.Float.Itv.Quotient.{ml_divpos_dbl_itv_outer-Contains}

abbrev plus : Tiny
plus = num false one

abbrev minus : Tiny
minus = num true one

-- From -1 to 1, and from 0 to 1.
abbrev around : Itv Tiny
around = record { lo = minus; hi = plus }

abbrev above : Itv Tiny
above = record { lo = num false none; hi = plus }

-- One plus one: rounded to infinity above, and to the greatest finite number below.
add_overflows :
    ml_add_dbl_itv_outer above above near ≡ (record { lo = num false none; hi = num false all }, up)
unfolding ml_add_dbl_itv_outer set_l set_u
add_overflows = refl

-- A quotient by an interval that starts at 0.
divide_by_zero :
    (ml_divpos_dbl_itv_outer around above near).0 ≡ record { lo = num true all; hi = num false all }
unfolding ml_divpos_dbl_itv_outer set_l set_u greatest mopsa_ocaml.Float.Fpu.divz
divide_by_zero = refl

ml_add_dbl_itv_outer-Contains_example :
    Contains (ml_add_dbl_itv_outer around above near).0 (tiny.add toward_zero plus plus)
ml_add_dbl_itv_outer-Contains_example =
    ml_add_dbl_itv_outer-Contains Tiny-IsOrdered Tiny-IsAddition around above plus plus toward_zero
      near (refl, refl) (refl, refl) refl

ml_sub_dbl_itv_outer-Contains_example :
    Contains (ml_sub_dbl_itv_outer around above near).0 (tiny.sub down minus plus)
ml_sub_dbl_itv_outer-Contains_example =
    ml_sub_dbl_itv_outer-Contains Tiny-IsOrdered Tiny-IsAddition around above minus plus down near
      (refl, refl) (refl, refl) refl

ml_mul_dbl_itv_outer-Contains_example :
    Contains (ml_mul_dbl_itv_outer around above near).0 (tiny.mul near minus plus)
ml_mul_dbl_itv_outer-Contains_example =
    ml_mul_dbl_itv_outer-Contains Tiny-IsOrdered Tiny-IsMultiplication around above minus plus near
      near (refl, refl) (refl, refl) refl

ml_divpos_dbl_itv_outer-Contains_example :
    Contains (ml_divpos_dbl_itv_outer around above near).0 (tiny.div near minus plus)
ml_divpos_dbl_itv_outer-Contains_example =
    ml_divpos_dbl_itv_outer-Contains Tiny-IsOrdered Tiny-IsDivision around above minus plus near
      near (refl, refl) (refl, refl) (record { nonneg = refl; plus = refl })
      (record { nonneg = refl; plus = refl }) (record { nonneg = refl; plus = refl }) refl
