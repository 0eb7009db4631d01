-- ===== src/Float/Itv/Inner.antt =====
-- The inward interval additions and subtractions of utils/itvUtils/floats_round.c lie within the
-- outward ones.
use mopsa_ocaml.Prelude.{◌≡◌, ◌⊎◌, inl, inr, arith}
use mopsa_ocaml.Float.Fpu.{Format, Mode, up, down, ◌≼◌, IsNum}
use mopsa_ocaml.Float.Laws.{IsRounded, IsOrdered, IsAddition}
use mopsa_ocaml.Float.Itv.Defs.{Itv, set_l, set_u}
use mopsa_ocaml.Float.Itv.Bounds.{set_l-le, le-set_u}
use mopsa_ocaml.Float.Itv.Add.{ml_add_dbl_itv_outer, ml_add_dbl_itv_inner}
use mopsa_ocaml.Float.Itv.Sub.{ml_sub_dbl_itv_outer, ml_sub_dbl_itv_inner}

-- The second interval lies within the first, bound by bound; it may be empty.
abbrev pub Within : {F : Type 0} ⦃f : Format F⦄ → Itv F → Itv F → Type 0
Within outer inner = (outer.lo ≼ inner.lo) × (inner.hi ≼ outer.hi)

module _ {F : Type 0} ⦃f : Format F⦄ (order : IsOrdered F) (laws : IsAddition F) where
  open f use {add, sub, minf, inf}
  open order use {le_num, minf_le, le_inf, nought_num}
  open laws use {add_rounded, neg-sub, sub_rounded, neg-add}

  set_l-IsNum : (v : F) → IsNum (set_l v)
  unfolding set_l
  set_l-IsNum v = ground (arith, le_num minf f.nought (minf_le f.nought nought_num))

  set_l_eq : (v : F) → IsNum v → set_l v ≡ v
  unfolding set_l
  set_l_eq v num = ground arith

  set_u_eq : (v : F) → IsNum v → set_u v ≡ v
  unfolding set_u
  set_u_eq v num = ground arith

  set_u-IsNum : (v : F) → IsNum (set_u v)
  unfolding set_u
  set_u-IsNum v = ground (arith, le_num f.nought inf (le_inf f.nought nought_num))

  -- The lower bounds: rounded down outside, and rounded up inside.
  lower :
      (op : Mode → F → F → F) (v a b : F)
      → IsRounded op
      → (IsNum v ⊎ IsNum (op down a b) → v ≡ op down a b)
      → set_l v ≼ set_l (op up a b)
  lower op v a b rounded same = set_l-le order _ _ (set_l-IsNum _) λ num.
      let e = same (inl num) in
      let below : IsNum (op down a b) = rw e at num in
      let above = rounded.same_num down up a b below in
      rw (e, set_l_eq _ above) (rounded.le-up down a b below)

  -- The upper bounds: rounded up outside, and rounded down inside.
  upper :
      (op : Mode → F → F → F) (v a b : F)
      → IsRounded op
      → (IsNum v ⊎ IsNum (op down a b) → v ≡ op down a b)
      → set_u v ≼ set_u (op up a b)
  upper op v a b rounded same = le-set_u order _ _ (set_u-IsNum _) λ num.
      let below = rounded.same_num up down a b num in
      let e = same (inr below) in rw (e, set_u_eq _ below) (rounded.le-up down a b below)

  -- For a float format that obeys the laws of order and addition and any two intervals: the lower
  -- bound of ml_add_dbl_itv_outer is at most that of ml_add_dbl_itv_inner, and its upper bound at
  -- least that of ml_add_dbl_itv_inner, NaN bounds included.
  ml_add_dbl_itv_inner-Within :
      (a b : Itv F) (entry : Mode)
      → Within (ml_add_dbl_itv_outer a b entry).0 (ml_add_dbl_itv_inner a b entry).0
  unfolding ml_add_dbl_itv_outer ml_add_dbl_itv_inner
  ml_add_dbl_itv_inner-Within a b entry = (
    lower add _ a.lo b.lo add_rounded (neg-sub a.lo b.lo),
    upper add _ a.hi b.hi add_rounded (neg-sub a.hi b.hi),
  )

  -- For a float format that obeys the laws of order and addition and any two intervals: the lower
  -- bound of ml_sub_dbl_itv_outer is at most that of ml_sub_dbl_itv_inner, and its upper bound at
  -- least that of ml_sub_dbl_itv_inner, NaN bounds included.
  ml_sub_dbl_itv_inner-Within :
      (a b : Itv F) (entry : Mode)
      → Within (ml_sub_dbl_itv_outer a b entry).0 (ml_sub_dbl_itv_inner a b entry).0
  unfolding ml_sub_dbl_itv_outer ml_sub_dbl_itv_inner
  ml_sub_dbl_itv_inner-Within a b entry = (
    lower sub _ a.lo b.hi sub_rounded (neg-add a.lo b.hi),
    upper sub _ a.hi b.lo sub_rounded (neg-add a.hi b.lo),
  )
