-- ===== src/Float/Itv/Sum.antt =====
-- Soundness of the outward interval additions and subtractions of utils/itvUtils/floats_round.c.
use mopsa_ocaml.Prelude.{inl}
use mopsa_ocaml.Float.Fpu.{Format, Casts, Mode, up, down, ◌≼◌, IsNum}
use mopsa_ocaml.Float.Laws.{IsOrdered, IsAddition, IsExact}
use mopsa_ocaml.Float.Itv.Defs.{Itv, Contains, widen_itv}
use mopsa_ocaml.Float.Itv.Bounds.{set_l-le, le-set_u}
use mopsa_ocaml.Float.Itv.Add.{ml_add_dbl_itv_outer, ml_add_sgl_itv_outer}
use mopsa_ocaml.Float.Itv.Sub.{ml_sub_dbl_itv_outer, ml_sub_sgl_itv_outer}

module _ {F : Type 0} ⦃f : Format F⦄ (order : IsOrdered F) (laws : IsAddition F) where
  open f use {neg, add, sub}
  open order use {le_trans}
  open laws use {add_rounded, add_mono, neg-sub, sub_rounded, sub_mono, neg-add}

  neg-sub-le :
      (m : Mode) (a b x y : F)
      → a ≼ x
      → b ≼ y
      → IsNum (add m x y)
      → IsNum (neg (sub up (neg a) b))
      → neg (sub up (neg a) b) ≼ add m x y
  neg-sub-le m a b x y p q num bound =
      let e = neg-sub a b (inl bound) in
      let below : IsNum (add down x y) = add_rounded.same_num m down x y num in
      rw e (
        le_trans _ _ _ (add_mono down a x b y p q (rw e at bound) below)
          (add_rounded.down-le m x y num))

  le-add :
      (m : Mode) (a b x y : F)
      → x ≼ a
      → y ≼ b
      → IsNum (add m x y)
      → IsNum (add up a b)
      → add m x y ≼ add up a b
  le-add m a b x y p q num bound =
      let above : IsNum (add up x y) = add_rounded.same_num m up x y num in
      le_trans _ _ _ (add_rounded.le-up m x y num) (add_mono up x a y b p q above bound)

  neg-add-le :
      (m : Mode) (a b x y : F)
      → a ≼ x
      → y ≼ b
      → IsNum (sub m x y)
      → IsNum (neg (add up (neg a) b))
      → neg (add up (neg a) b) ≼ sub m x y
  neg-add-le m a b x y p q num bound =
      let e = neg-add a b (inl bound) in
      let below : IsNum (sub down x y) = sub_rounded.same_num m down x y num in
      rw e (
        le_trans _ _ _ (sub_mono down a x b y p q (rw e at bound) below)
          (sub_rounded.down-le m x y num))

  le-sub :
      (m : Mode) (a b x y : F)
      → x ≼ a
      → b ≼ y
      → IsNum (sub m x y)
      → IsNum (sub up a b)
      → sub m x y ≼ sub up a b
  le-sub m a b x y p q num bound =
      let above : IsNum (sub up x y) = sub_rounded.same_num m up x y num in
      le_trans _ _ _ (sub_rounded.le-up m x y num) (sub_mono up x a y b p q above bound)

  -- For a float format that obeys the laws of order and addition, x in a and y in b: the
  -- processor's sum of x and y in any rounding mode, if it is not NaN, lies in the interval that
  -- ml_add_dbl_itv_outer gives for a and b from any mode at entry.
  pub ml_add_dbl_itv_outer-Contains :
      (a b : Itv F) (x y : F) (m entry : Mode)
      → Contains a x
      → Contains b y
      → IsNum (add m x y)
      → Contains (ml_add_dbl_itv_outer a b entry).0 (add m x y)
  unfolding ml_add_dbl_itv_outer
  ml_add_dbl_itv_outer-Contains a b x y m entry p q num = (
    set_l-le order _ _ num (neg-sub-le m a.lo b.lo x y p.0 q.0 num),
    le-set_u order _ _ num (le-add m a.hi b.hi x y p.1 q.1 num),
  )

  -- For a float format that obeys the laws of order and addition, x in a and y in b: the
  -- processor's difference of x and y in any rounding mode, if it is not NaN, lies in the interval
  -- that ml_sub_dbl_itv_outer gives for a and b from any mode at entry.
  pub ml_sub_dbl_itv_outer-Contains :
      (a b : Itv F) (x y : F) (m entry : Mode)
      → Contains a x
      → Contains b y
      → IsNum (sub m x y)
      → Contains (ml_sub_dbl_itv_outer a b entry).0 (sub m x y)
  unfolding ml_sub_dbl_itv_outer
  ml_sub_dbl_itv_outer-Contains a b x y m entry p q num = (
    set_l-le order _ _ num (neg-add-le m a.lo b.hi x y p.0 q.1 num),
    le-set_u order _ _ num (le-sub m a.hi b.lo x y p.1 q.0 num),
  )

module _ {D S : Type 0} ⦃d : Format D⦄ ⦃s : Format S⦄ (c : Casts D S) (exact : IsExact c)
    (order : IsOrdered D) (order_sgl : IsOrdered S) (laws : IsAddition S) where
  open s use {add, sub}
  open c use {of_sgl}
  open exact use {to_sgl-of_sgl, of_sgl_mono, of_sgl_num, num_of_sgl}

  -- For intervals of single-precision numbers held as doubles, formats that obey the laws and an
  -- exact conversion to double: the single-precision sum of members x of a and y of b in any
  -- rounding mode, if it is not NaN, lies, as a double, in the interval that ml_add_sgl_itv_outer
  -- gives for a and b from any mode at entry.
  ml_add_sgl_itv_outer-Contains :
      (a b : Itv S) (x y : S) (m entry : Mode)
      → Contains a x
      → Contains b y
      → IsNum (add m x y)
      → Contains
          (ml_add_sgl_itv_outer c (widen_itv c a) (widen_itv c b) entry).0
          (of_sgl (add m x y))
  unfolding ml_add_sgl_itv_outer
  ml_add_sgl_itv_outer-Contains a b x y m entry p q num = simp to_sgl-of_sgl (
    set_l-le order _ _ (of_sgl_num _ num) (λ bound.
        of_sgl_mono _ _
          (neg-sub-le order_sgl laws m a.lo b.lo x y p.0 q.0 num (num_of_sgl _ bound))),
    le-set_u order _ _ (of_sgl_num _ num) (λ bound.
        of_sgl_mono _ _ (le-add order_sgl laws m a.hi b.hi x y p.1 q.1 num (num_of_sgl _ bound))),
  )

  -- For intervals of single-precision numbers held as doubles, formats that obey the laws and an
  -- exact conversion to double: the single-precision difference of members x of a and y of b in any
  -- rounding mode, if it is not NaN, lies, as a double, in the interval that ml_sub_sgl_itv_outer
  -- gives for a and b from any mode at entry.
  pub ml_sub_sgl_itv_outer-Contains :
      (a b : Itv S) (x y : S) (m entry : Mode)
      → Contains a x
      → Contains b y
      → IsNum (sub m x y)
      → Contains
          (ml_sub_sgl_itv_outer c (widen_itv c a) (widen_itv c b) entry).0
          (of_sgl (sub m x y))
  unfolding ml_sub_sgl_itv_outer
  ml_sub_sgl_itv_outer-Contains a b x y m entry p q num = simp to_sgl-of_sgl (
    set_l-le order _ _ (of_sgl_num _ num) (λ bound.
        of_sgl_mono _ _
          (neg-add-le order_sgl laws m a.lo b.hi x y p.0 q.1 num (num_of_sgl _ bound))),
    le-set_u order _ _ (of_sgl_num _ num) (λ bound.
        of_sgl_mono _ _ (le-sub order_sgl laws m a.hi b.lo x y p.1 q.0 num (num_of_sgl _ bound))),
  )
