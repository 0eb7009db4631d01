-- ===== src/Float/Itv/Product.antt =====
-- Soundness of the outward interval multiplications of utils/itvUtils/floats_round.c.
use mopsa_ocaml.Prelude.{◌⊎◌, inl, inr}
use mopsa_ocaml.Float.Fpu.{Format, Casts, Mode, up, ◌≼◌, IsNum, mulz}
use mopsa_ocaml.Float.Laws.{IsOrdered, IsMultiplication, IsExact}
use mopsa_ocaml.Float.Itv.Defs.{Itv, Corners, Contains, widen_itv}
use mopsa_ocaml.Float.Itv.Bounds.{
  set_l-le, le-set_u, AreNum, BelowSome, BelowSome-of_either, le-greatest, le-greatest-widen,
}
use mopsa_ocaml.Float.Itv.Mulz.{
  mulz-IsNum, mulz-le_either, mulz-le_either_right, mulz-le_up, neg-mulz-le, mul-mulz,
}
use mopsa_ocaml.Float.Itv.Mul.{ml_mul_dbl_itv_outer, ml_mul_sgl_itv_outer}

module _ {F : Type 0} ⦃f : Format F⦄ (order : IsOrdered F) (laws : IsMultiplication F) where
  open f use {neg, mul}
  open order use {le_num, le_trans, neg_num, neg_anti, neg-neg}

  -- The products of the bounds, rounded up.
  abbrev products : F → F → F → F → Corners F
  products l1 h1 l2 h2 = record {
    ll = mulz up l1 l2;
    lh = mulz up l1 h2;
    hl = mulz up h1 l2;
    hh = mulz up h1 h2;
  }

  products-AreNum :
      (l1 h1 l2 h2 : F)
      → IsNum l1
      → IsNum h1
      → IsNum l2
      → IsNum h2
      → AreNum order (products l1 h1 l2 h2)
  products-AreNum l1 h1 l2 h2 p q r t = record {
    ll_num = mulz-IsNum order laws up l1 l2 p r;
    lh_num = mulz-IsNum order laws up l1 h2 p t;
    hl_num = mulz-IsNum order laws up h1 l2 q r;
    hh_num = mulz-IsNum order laws up h1 h2 q t;
  }

  products-BelowSome :
      (l1 h1 l2 h2 x y : F)
      → IsNum l1
      → IsNum h1
      → ((l1 ≼ x) × (x ≼ h1)) ⊎ ((h1 ≼ x) × (x ≼ l1))
      → l2 ≼ y
      → y ≼ h2
      → BelowSome order (mulz up x y) (products l1 h1 l2 h2)
  products-BelowSome l1 h1 l2 h2 x y p q between low high =
      BelowSome-of_either order (mulz up x y) (mulz up l1 y) (mulz up h1 y) (products l1 h1 l2 h2)
        (mulz-le_either order laws up l1 h1 x y (le_num _ _ low).1 between)
        (mulz-le_either_right order laws up l1 l2 h2 y p low high)
        (mulz-le_either_right order laws up h1 l2 h2 y q low high)

  -- The corners of the code, for the upper bound and, on the negated first operand, for the lower.
  record Enclosed (a b : Itv F) (x y : F) : Type 0 where
    upper_num : AreNum order (products a.lo a.hi b.lo b.hi)
    upper : BelowSome order (mulz up x y) (products a.lo a.hi b.lo b.hi)
    lower_num : AreNum order (products (neg a.lo) (neg a.hi) b.lo b.hi)
    lower : BelowSome order (mulz up (neg x) y) (products (neg a.lo) (neg a.hi) b.lo b.hi)

  enclosed : (a b : Itv F) (x y : F) → Contains a x → Contains b y → Enclosed a b x y
  enclosed a b x y p q =
      let lo = (le_num _ _ p.0).0 in
      let hi = (le_num _ _ p.1).1 in
      let low = (le_num _ _ q.0).0 in
      let high = (le_num _ _ q.1).1 in
      record {
        upper_num = products-AreNum a.lo a.hi b.lo b.hi lo hi low high;
        upper = products-BelowSome a.lo a.hi b.lo b.hi x y lo hi (inl p) q.0 q.1;
        lower_num =
            products-AreNum (neg a.lo) (neg a.hi) b.lo b.hi (neg_num _ lo) (neg_num _ hi) low high;
        lower =
            products-BelowSome (neg a.lo) (neg a.hi) b.lo b.hi (neg x) y (neg_num _ lo)
              (neg_num _ hi) (inr (neg_anti _ _ p.1, neg_anti _ _ p.0)) q.0 q.1;
      }

  mul-le_up : (m : Mode) (x y : F) → IsNum x → IsNum y → IsNum (mul m x y) → mul m x y ≼ mulz up x y
  mul-le_up m x y p q num =
      le_trans _ _ _ (mul-mulz order laws m x y num).0 (mulz-le_up order laws m x y p q)

  neg-mulz-le-mul :
      (m : Mode) (x y : F)
      → IsNum x
      → IsNum y
      → IsNum (mul m x y)
      → neg (mulz up (neg x) y) ≼ mul m x y
  neg-mulz-le-mul m x y p q num =
      le_trans _ _ _ (neg-mulz-le order laws m x y p q) (mul-mulz order laws m x y num).1

  -- For a float format that obeys the laws of order and multiplication, and for all floats x and y
  -- in the intervals a and b: in whatever rounding mode the processor multiplies them, the product,
  -- if it is not NaN, lies in the interval that ml_mul_dbl_itv_outer gives for a and b from any
  -- mode at entry.
  pub ml_mul_dbl_itv_outer-Contains :
      (a b : Itv F) (x y : F) (m entry : Mode)
      → Contains a x
      → Contains b y
      → IsNum (mul m x y)
      → Contains (ml_mul_dbl_itv_outer a b entry).0 (mul m x y)
  unfolding ml_mul_dbl_itv_outer
  ml_mul_dbl_itv_outer-Contains a b x y m entry p q num =
      let e = enclosed a b x y p q in
      let x_num = (le_num _ _ p.0).1 in
      let y_num = (le_num _ _ q.0).1 in
      let back_lo = neg-neg a.lo (le_num _ _ p.0).0 in
      let back_hi = neg-neg a.hi (le_num _ _ p.1).1 in
      (
        set_l-le order _ _ num (λ _.
            le_trans _ _ _ (neg_anti _ _ (le-greatest order _ _ e.lower_num e.lower))
              (neg-mulz-le-mul m x y x_num y_num num)),
        le-set_u order _ _ num (λ _.
            rw (back_lo, back_hi)
              (le_trans _ _ _ (mul-le_up m x y x_num y_num num)
                (le-greatest order _ _ e.upper_num e.upper))),
      )

module _ {D S : Type 0} ⦃d : Format D⦄ ⦃s : Format S⦄ (c : Casts D S) (exact : IsExact c)
    (order : IsOrdered D) (order_sgl : IsOrdered S) (laws : IsMultiplication S) where
  open s use {mul}
  open c use {of_sgl}
  open order_sgl use {le_num, neg-neg}
  open exact use {to_sgl-of_sgl, of_sgl_mono, of_sgl_num, of_sgl-neg}

  -- For intervals of single-precision numbers held as doubles, formats that obey the laws and an
  -- exact conversion to double: the single-precision product of members x of a and y of b in any
  -- rounding mode, if it is not NaN, lies, as a double, in the interval that ml_mul_sgl_itv_outer
  -- gives for a and b from any mode at entry.
  ml_mul_sgl_itv_outer-Contains :
      (a b : Itv S) (x y : S) (m entry : Mode)
      → Contains a x
      → Contains b y
      → IsNum (mul m x y)
      → Contains
          (ml_mul_sgl_itv_outer c (widen_itv c a) (widen_itv c b) entry).0
          (of_sgl (mul m x y))
  unfolding ml_mul_sgl_itv_outer
  ml_mul_sgl_itv_outer-Contains a b x y m entry p q num =
      let e = enclosed order_sgl laws a b x y p q in
      let x_num = (le_num _ _ p.0).1 in
      let y_num = (le_num _ _ q.0).1 in
      let neg_x_num = order_sgl.neg_num x x_num in
      let product_num = mulz-IsNum order_sgl laws up (s.neg x) y neg_x_num y_num in
      let below = of_sgl_mono _ _ (neg-mulz-le-mul order_sgl laws m x y x_num y_num num) in
      let above = of_sgl_mono _ _ (mul-le_up order_sgl laws m x y x_num y_num num) in
      let back_lo = neg-neg a.lo (le_num _ _ p.0).0 in
      let back_hi = neg-neg a.hi (le_num _ _ p.1).1 in
      simp to_sgl-of_sgl (
        set_l-le order _ _ (of_sgl_num _ num) (λ _.
            order.le_trans _ _ _
              (order.neg_anti _ _
                (le-greatest-widen c exact order order_sgl _ _ e.lower_num e.lower))
              (rw (of_sgl-neg _ product_num) at below)),
        le-set_u order _ _ (of_sgl_num _ num) (λ _.
            rw (back_lo, back_hi)
              (order.le_trans _ _ _ above
                (le-greatest-widen c exact order order_sgl _ _ e.upper_num e.upper))),
      )
