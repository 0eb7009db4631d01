-- ===== src/Float/Itv/Add.antt =====
-- The interval additions of utils/itvUtils/floats_round.c.
use mopsa_ocaml.Float.Fpu.{Format, Casts, near, up, toward_zero, M, ◌>>=◌, ◌>>◌, round, fadd, fsub}
use mopsa_ocaml.Float.Itv.Defs.{Itv, store, get_sl, get_su}

module _ {D : Type 0} ⦃d : Format D⦄ where
  open d use {neg}

  unfoldable pub ml_add_dbl_itv_near : Itv D → Itv D → M (Itv D)
  ml_add_dbl_itv_near a b = do round near; store (← fadd a.lo b.lo) (← fadd a.hi b.hi)

  unfoldable pub ml_add_dbl_itv_up : Itv D → Itv D → M (Itv D)
  ml_add_dbl_itv_up a b = do round up; store (← fadd a.lo b.lo) (← fadd a.hi b.hi)

  unfoldable pub ml_add_dbl_itv_down : Itv D → Itv D → M (Itv D)
  ml_add_dbl_itv_down a b = do
    round up
    store (neg (← fsub (neg a.lo) b.lo)) (neg (← fsub (neg a.hi) b.hi))

  unfoldable pub ml_add_dbl_itv_zero : Itv D → Itv D → M (Itv D)
  ml_add_dbl_itv_zero a b = do round toward_zero; store (← fadd a.lo b.lo) (← fadd a.hi b.hi)

  unfoldable pub ml_add_dbl_itv_outer : Itv D → Itv D → M (Itv D)
  ml_add_dbl_itv_outer a b = do round up; store (neg (← fsub (neg a.lo) b.lo)) (← fadd a.hi b.hi)

  unfoldable pub ml_add_dbl_itv_inner : Itv D → Itv D → M (Itv D)
  ml_add_dbl_itv_inner a b = do round up; store (← fadd a.lo b.lo) (neg (← fsub (neg a.hi) b.hi))

module _ {D S : Type 0} ⦃d : Format D⦄ ⦃s : Format S⦄ (c : Casts D S) where
  open c use {of_sgl}
  open s use {neg}

  unfoldable pub ml_add_sgl_itv_near : Itv D → Itv D → M (Itv D)
  ml_add_sgl_itv_near a b = do
    round near
    store (of_sgl (← fadd (← get_sl c a) (← get_sl c b)))
        (of_sgl (← fadd (← get_su c a) (← get_su c b)))

  unfoldable pub ml_add_sgl_itv_up : Itv D → Itv D → M (Itv D)
  ml_add_sgl_itv_up a b = do
    round up
    store (of_sgl (← fadd (← get_sl c a) (← get_sl c b)))
        (of_sgl (← fadd (← get_su c a) (← get_su c b)))

  unfoldable pub ml_add_sgl_itv_down : Itv D → Itv D → M (Itv D)
  ml_add_sgl_itv_down a b = do
    round up
    store (of_sgl (neg (← fsub (neg (← get_sl c a)) (← get_sl c b))))
        (of_sgl (neg (← fsub (neg (← get_su c a)) (← get_su c b))))

  unfoldable pub ml_add_sgl_itv_zero : Itv D → Itv D → M (Itv D)
  ml_add_sgl_itv_zero a b = do
    round toward_zero
    store (of_sgl (← fadd (← get_sl c a) (← get_sl c b)))
        (of_sgl (← fadd (← get_su c a) (← get_su c b)))

  unfoldable pub ml_add_sgl_itv_outer : Itv D → Itv D → M (Itv D)
  ml_add_sgl_itv_outer a b = do
    round up
    store (of_sgl (neg (← fsub (neg (← get_sl c a)) (← get_sl c b))))
        (of_sgl (← fadd (← get_su c a) (← get_su c b)))

  unfoldable pub ml_add_sgl_itv_inner : Itv D → Itv D → M (Itv D)
  ml_add_sgl_itv_inner a b = do
    round up
    store (of_sgl (← fadd (← get_sl c a) (← get_sl c b)))
        (of_sgl (neg (← fsub (neg (← get_su c a)) (← get_su c b))))
