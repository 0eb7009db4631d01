-- ===== src/Float/Scalar/Rounding.antt =====
-- The rounding of the operations on floats of utils/itvUtils/floats_round.c.
use mopsa_ocaml.Float.Fpu.{Format, Mode, near, up, toward_zero, ◌≼◌, IsNum, mulz, divz}
use mopsa_ocaml.Float.Laws.{IsPos, IsOrdered, IsMultiplication, IsDivision}
use mopsa_ocaml.Float.Itv.Mulz.{mulz-le_up, neg-mulz-le}
use mopsa_ocaml.Float.Itv.Divz.{divz-le_up, neg-divz-le}
use mopsa_ocaml.Float.Scalar.Product.{
  ml_mulz_dbl_near, ml_mulz_dbl_up, ml_mulz_dbl_down, ml_mulz_dbl_zero,
}
use mopsa_ocaml.Float.Scalar.Quotient.{
  ml_divz_dbl_near, ml_divz_dbl_up, ml_divz_dbl_down, ml_divz_dbl_zero,
}

module _ {F : Type 0} ⦃f : Format F⦄ where
  open f use {is_nan, neg, add, sub, mul, div}

  -- `x` lies from `low` to `high`.
  abbrev pub Between : F → F → F → Type 0
  Between low high x = (low ≼ x) × (x ≼ high)

  -- For a float format that obeys the laws of order and multiplication and two operands that are
  -- not NaN: the results of ml_mulz_dbl_near and ml_mulz_dbl_zero lie from that of ml_mulz_dbl_down
  -- to that of ml_mulz_dbl_up, none of which is NaN.
  ml_mulz_dbl-Between :
      (order : IsOrdered F) (laws : IsMultiplication F) (a b : F) (entry : Mode)
      → IsNum a
      → IsNum b
      → Between
          (ml_mulz_dbl_down a b entry).0
          (ml_mulz_dbl_up a b entry).0
          (ml_mulz_dbl_near a b entry).0
        × Between
            (ml_mulz_dbl_down a b entry).0
            (ml_mulz_dbl_up a b entry).0
            (ml_mulz_dbl_zero a b entry).0
  unfolding ml_mulz_dbl_near ml_mulz_dbl_up ml_mulz_dbl_down ml_mulz_dbl_zero
  ml_mulz_dbl-Between order laws a b entry p q = (both near, both toward_zero)
    where
      both : (m : Mode) → Between (neg (mulz up (neg a) b)) (mulz up a b) (mulz m a b)
      both m = (neg-mulz-le order laws m a b p q, mulz-le_up order laws m a b p q)

  ml_divz_dbl-Between :
      (order : IsOrdered F) (laws : IsDivision F) (a b : F) (entry : Mode)
      → IsNum a
      → IsPos b
      → Between
          (ml_divz_dbl_down a b entry).0
          (ml_divz_dbl_up a b entry).0
          (ml_divz_dbl_near a b entry).0
        × Between
            (ml_divz_dbl_down a b entry).0
            (ml_divz_dbl_up a b entry).0
            (ml_divz_dbl_zero a b entry).0
  unfolding ml_divz_dbl_near ml_divz_dbl_up ml_divz_dbl_down ml_divz_dbl_zero
  ml_divz_dbl-Between order laws a b entry p q = (both near, both toward_zero)
    where
      both : (m : Mode) → Between (neg (divz up (neg a) b)) (divz up a b) (divz m a b)
      both m = (neg-divz-le order laws m a b p q, divz-le_up order laws m a b p q)
