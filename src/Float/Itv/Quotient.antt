-- ===== src/Float/Itv/Quotient.antt =====
-- Soundness of the outward interval divisions by a positive interval of utils/itvUtils/floats_round.c.
use mopsa_ocaml.Prelude.{◌⊎◌, inl, inr}
use mopsa_ocaml.Float.Fpu.{Format, Casts, Mode, up, ◌≼◌, IsNum, divz}
use mopsa_ocaml.Float.Laws.{IsOrdered, IsDivision, IsExact, IsPos}
use mopsa_ocaml.Float.Itv.Defs.{Itv, Corners, Contains, widen_itv}
use mopsa_ocaml.Float.Itv.Bounds.{
  set_l-le, le-set_u, AreNum, BelowSome, BelowSome-of_either, le-greatest, le-greatest-widen,
}
use mopsa_ocaml.Float.Itv.Divz.{
  divz-IsNum, divz-le_either, divz-le_either_right, divz-le_up, neg-divz-le, div-divz,
}
use mopsa_ocaml.Float.Itv.Divpos.{ml_divpos_dbl_itv_outer, ml_divpos_sgl_itv_outer}

module _ {F : Type 0} ⦃f : Format F⦄ (order : IsOrdered F) (laws : IsDivision F) where
  open f use {neg, div}
  open order use {le_num, le_trans, neg_num, neg_anti, neg-neg}

  -- The quotients of the bounds, rounded up.
  abbrev quotients : F → F → F → F → Corners F
  quotients l1 h1 l2 h2 = record {
    ll = divz up l1 l2;
    lh = divz up l1 h2;
    hl = divz up h1 l2;
    hh = divz up h1 h2;
  }

  quotients-AreNum :
      (l1 h1 l2 h2 : F)
      → IsNum l1
      → IsNum h1
      → IsPos l2
      → IsPos h2
      → AreNum order (quotients l1 h1 l2 h2)
  quotients-AreNum l1 h1 l2 h2 p q r t = record {
    ll_num = divz-IsNum order laws up l1 l2 p r;
    lh_num = divz-IsNum order laws up l1 h2 p t;
    hl_num = divz-IsNum order laws up h1 l2 q r;
    hh_num = divz-IsNum order laws up h1 h2 q t;
  }

  quotients-BelowSome :
      (l1 h1 l2 h2 x y : F)
      → IsNum l1
      → IsNum h1
      → IsPos l2
      → IsPos h2
      → IsPos y
      → ((l1 ≼ x) × (x ≼ h1)) ⊎ ((h1 ≼ x) × (x ≼ l1))
      → l2 ≼ y
      → y ≼ h2
      → BelowSome order (divz up x y) (quotients l1 h1 l2 h2)
  quotients-BelowSome l1 h1 l2 h2 x y p q low_pos high_pos pos between low high =
      BelowSome-of_either order (divz up x y) (divz up l1 y) (divz up h1 y) (quotients l1 h1 l2 h2)
        (divz-le_either order laws up l1 h1 x y pos between)
        (divz-le_either_right order laws up l1 l2 h2 y p low_pos high_pos pos low high)
        (divz-le_either_right order laws up h1 l2 h2 y q low_pos high_pos pos low high)

  -- The corners of the code, for the upper bound and, on the negated first operand, for the lower.
  record Enclosed (a b : Itv F) (x y : F) : Type 0 where
    upper_num : AreNum order (quotients a.lo a.hi b.lo b.hi)
    upper : BelowSome order (divz up x y) (quotients a.lo a.hi b.lo b.hi)
    lower_num : AreNum order (quotients (neg a.lo) (neg a.hi) b.lo b.hi)
    lower : BelowSome order (divz up (neg x) y) (quotients (neg a.lo) (neg a.hi) b.lo b.hi)

  enclosed :
      (a b : Itv F) (x y : F)
      → Contains a x
      → Contains b y
      → IsPos b.lo
      → IsPos b.hi
      → IsPos y
      → Enclosed a b x y
  enclosed a b x y p q low high pos =
      let lo = (le_num _ _ p.0).0 in
      let hi = (le_num _ _ p.1).1 in
      record {
        upper_num = quotients-AreNum a.lo a.hi b.lo b.hi lo hi low high;
        upper = quotients-BelowSome a.lo a.hi b.lo b.hi x y lo hi low high pos (inl p) q.0 q.1;
        lower_num =
            quotients-AreNum (neg a.lo) (neg a.hi) b.lo b.hi (neg_num _ lo) (neg_num _ hi) low high;
        lower =
            quotients-BelowSome (neg a.lo) (neg a.hi) b.lo b.hi (neg x) y (neg_num _ lo)
              (neg_num _ hi) low high pos (inr (neg_anti _ _ p.1, neg_anti _ _ p.0)) q.0 q.1;
      }

  div-le_up : (m : Mode) (x y : F) → IsNum x → IsPos y → IsNum (div m x y) → div m x y ≼ divz up x y
  div-le_up m x y p q num =
      le_trans _ _ _ (div-divz order laws m x y num).0 (divz-le_up order laws m x y p q)

  neg-divz-le-div :
      (m : Mode) (x y : F)
      → IsNum x
      → IsPos y
      → IsNum (div m x y)
      → neg (divz up (neg x) y) ≼ div m x y
  neg-divz-le-div m x y p q num =
      le_trans _ _ _ (neg-divz-le order laws m x y p q) (div-divz order laws m x y num).1

  -- For a float format that obeys the laws of order and division, x in a, and y in b, where y and
  -- both bounds of b are at least zero and none is -0: the processor's quotient of x by y in any
  -- rounding mode, if it is not NaN, lies in the interval that ml_divpos_dbl_itv_outer gives for a
  -- and b from any mode at entry.
  pub ml_divpos_dbl_itv_outer-Contains :
      (a b : Itv F) (x y : F) (m entry : Mode)
      → Contains a x
      → Contains b y
      → IsPos b.lo
      → IsPos b.hi
      → IsPos y
      → IsNum (div m x y)
      → Contains (ml_divpos_dbl_itv_outer a b entry).0 (div m x y)
  unfolding ml_divpos_dbl_itv_outer
  ml_divpos_dbl_itv_outer-Contains a b x y m entry p q low high pos num =
      let e = enclosed a b x y p q low high pos in
      let x_num = (le_num _ _ p.0).1 in
      let back_lo = neg-neg a.lo (le_num _ _ p.0).0 in
      let back_hi = neg-neg a.hi (le_num _ _ p.1).1 in
      (
        set_l-le order _ _ num (λ _.
            le_trans _ _ _ (neg_anti _ _ (le-greatest order _ _ e.lower_num e.lower))
              (neg-divz-le-div m x y x_num pos num)),
        le-set_u order _ _ num (λ _.
            rw (back_lo, back_hi)
              (le_trans _ _ _ (div-le_up m x y x_num pos num)
                (le-greatest order _ _ e.upper_num e.upper))),
      )

module _ {D S : Type 0} ⦃d : Format D⦄ ⦃s : Format S⦄ (c : Casts D S) (exact : IsExact c)
    (order : IsOrdered D) (order_sgl : IsOrdered S) (laws : IsDivision S) where
  open s use {div}
  open c use {of_sgl}
  open order_sgl use {le_num, neg-neg}
  open exact use {to_sgl-of_sgl, of_sgl_mono, of_sgl_num, of_sgl-neg}

  -- For intervals of single-precision numbers held as doubles, formats that obey the laws, an exact
  -- conversion to double, x in a, and y in b, where y and both bounds of b are at least zero and
  -- none is -0: the single-precision quotient in any rounding mode, if it is not NaN, lies, as a
  -- double, in the interval that ml_divpos_sgl_itv_outer gives for a and b from any mode at entry.
  ml_divpos_sgl_itv_outer-Contains :
      (a b : Itv S) (x y : S) (m entry : Mode)
      → Contains a x
      → Contains b y
      → IsPos b.lo
      → IsPos b.hi
      → IsPos y
      → IsNum (div m x y)
      → Contains
          (ml_divpos_sgl_itv_outer c (widen_itv c a) (widen_itv c b) entry).0
          (of_sgl (div m x y))
  unfolding ml_divpos_sgl_itv_outer
  ml_divpos_sgl_itv_outer-Contains a b x y m entry p q low high pos num =
      let e = enclosed order_sgl laws a b x y p q low high pos in
      let x_num = (le_num _ _ p.0).1 in
      let neg_x_num = order_sgl.neg_num x x_num in
      let quotient_num = divz-IsNum order_sgl laws up (s.neg x) y neg_x_num pos in
      let below = of_sgl_mono _ _ (neg-divz-le-div order_sgl laws m x y x_num pos num) in
      let above = of_sgl_mono _ _ (div-le_up order_sgl laws m x y x_num pos num) in
      let back_lo = neg-neg a.lo (le_num _ _ p.0).0 in
      let back_hi = neg-neg a.hi (le_num _ _ p.1).1 in
      simp to_sgl-of_sgl (
        set_l-le order _ _ (of_sgl_num _ num) (λ _.
            order.le_trans _ _ _
              (order.neg_anti _ _
                (le-greatest-widen c exact order order_sgl _ _ e.lower_num e.lower))
              (rw (of_sgl-neg _ quotient_num) at below)),
        le-set_u order _ _ (of_sgl_num _ num) (λ _.
            rw (back_lo, back_hi)
              (order.le_trans _ _ _ above
                (le-greatest-widen c exact order order_sgl _ _ e.upper_num e.upper))),
      )
