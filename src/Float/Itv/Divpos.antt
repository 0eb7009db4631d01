-- ===== src/Float/Itv/Divpos.antt =====
-- The interval divisions, by an interval of constant sign, of utils/itvUtils/floats_round.c.
use mopsa_ocaml.Float.Fpu.{Format, Casts, near, up, toward_zero, M, ◌>>=◌, ◌>>◌, round, divz}
use mopsa_ocaml.Float.Itv.Defs.{Itv, corners, least, greatest, store, get_sl, get_su, widen}

module _ {D : Type 0} ⦃d : Format D⦄ where
  open d use {neg}

  unfoldable pub ml_divpos_dbl_itv_near : Itv D → Itv D → M (Itv D)
  ml_divpos_dbl_itv_near a b = do
    round near
    let l1 = a.lo
    let l2 = b.lo
    let h1 = a.hi
    let h2 = b.hi
    k ← corners divz l1 h1 l2 h2
    store (least k) (greatest k)

  unfoldable pub ml_divpos_dbl_itv_up : Itv D → Itv D → M (Itv D)
  ml_divpos_dbl_itv_up a b = do
    round up
    let l1 = a.lo
    let l2 = b.lo
    let h1 = a.hi
    let h2 = b.hi
    k ← corners divz l1 h1 l2 h2
    store (least k) (greatest k)

  unfoldable pub ml_divpos_dbl_itv_down : Itv D → Itv D → M (Itv D)
  ml_divpos_dbl_itv_down a b = do
    round up
    let l1 = neg a.lo
    let l2 = b.lo
    let h1 = neg a.hi
    let h2 = b.hi
    k ← corners divz l1 h1 l2 h2
    store (neg (greatest k)) (neg (least k))

  unfoldable pub ml_divpos_dbl_itv_zero : Itv D → Itv D → M (Itv D)
  ml_divpos_dbl_itv_zero a b = do
    round toward_zero
    let l1 = a.lo
    let l2 = b.lo
    let h1 = a.hi
    let h2 = b.hi
    k ← corners divz l1 h1 l2 h2
    store (least k) (greatest k)

  unfoldable pub ml_divpos_dbl_itv_outer : Itv D → Itv D → M (Itv D)
  ml_divpos_dbl_itv_outer a b = do
    round up
    let l1 = neg a.lo
    let l2 = b.lo
    let h1 = neg a.hi
    let h2 = b.hi
    k ← corners divz l1 h1 l2 h2
    k' ← corners divz (neg l1) (neg h1) l2 h2
    store (neg (greatest k)) (greatest k')

  unfoldable pub ml_divpos_dbl_itv_inner : Itv D → Itv D → M (Itv D)
  ml_divpos_dbl_itv_inner a b = do
    round up
    let l1 = a.lo
    let l2 = b.lo
    let h1 = a.hi
    let h2 = b.hi
    k ← corners divz l1 h1 l2 h2
    k' ← corners divz (neg l1) (neg h1) l2 h2
    store (least k) (neg (least k'))

module _ {D S : Type 0} ⦃d : Format D⦄ ⦃s : Format S⦄ (c : Casts D S) where
  open d use {neg}

  unfoldable pub ml_divpos_sgl_itv_near : Itv D → Itv D → M (Itv D)
  ml_divpos_sgl_itv_near a b = do
    round near
    l1 ← get_sl c a
    l2 ← get_sl c b
    h1 ← get_su c a
    h2 ← get_su c b
    k ← corners divz l1 h1 l2 h2
    store (least (widen c k)) (greatest (widen c k))

  unfoldable pub ml_divpos_sgl_itv_up : Itv D → Itv D → M (Itv D)
  ml_divpos_sgl_itv_up a b = do
    round up
    l1 ← get_sl c a
    l2 ← get_sl c b
    h1 ← get_su c a
    h2 ← get_su c b
    k ← corners divz l1 h1 l2 h2
    store (least (widen c k)) (greatest (widen c k))

  unfoldable pub ml_divpos_sgl_itv_down : Itv D → Itv D → M (Itv D)
  ml_divpos_sgl_itv_down a b = do
    round up
    let l1 = s.neg (← get_sl c a)
    l2 ← get_sl c b
    let h1 = s.neg (← get_su c a)
    h2 ← get_su c b
    k ← corners divz l1 h1 l2 h2
    store (neg (greatest (widen c k))) (neg (least (widen c k)))

  unfoldable pub ml_divpos_sgl_itv_zero : Itv D → Itv D → M (Itv D)
  ml_divpos_sgl_itv_zero a b = do
    round toward_zero
    l1 ← get_sl c a
    l2 ← get_sl c b
    h1 ← get_su c a
    h2 ← get_su c b
    k ← corners divz l1 h1 l2 h2
    store (least (widen c k)) (greatest (widen c k))

  unfoldable pub ml_divpos_sgl_itv_outer : Itv D → Itv D → M (Itv D)
  ml_divpos_sgl_itv_outer a b = do
    round up
    let l1 = s.neg (← get_sl c a)
    l2 ← get_sl c b
    let h1 = s.neg (← get_su c a)
    h2 ← get_su c b
    k ← corners divz l1 h1 l2 h2
    k' ← corners divz (s.neg l1) (s.neg h1) l2 h2
    store (neg (greatest (widen c k))) (greatest (widen c k'))

  unfoldable pub ml_divpos_sgl_itv_inner : Itv D → Itv D → M (Itv D)
  ml_divpos_sgl_itv_inner a b = do
    round up
    l1 ← get_sl c a
    l2 ← get_sl c b
    h1 ← get_su c a
    h2 ← get_su c b
    k ← corners divz l1 h1 l2 h2
    k' ← corners divz (s.neg l1) (s.neg h1) l2 h2
    store (least (widen c k)) (neg (least (widen c k')))
