-- ===== src/Float/Scalar/Sum.antt =====
-- OP_DD_D of utils/itvUtils/floats_round.c: sums and differences of floats, in both of the functions
-- that the macro expands to.
use mopsa_ocaml.Float.Fpu.{
  Format, Casts, near, up, toward_zero, M, pure, ◌>>=◌, ◌>>◌, round, single, fadd, fsub,
}

module _ {D : Type 0} ⦃d : Format D⦄ where
  open d use {neg}

  unfoldable pub ml_add_dbl_near : D → D → M D
  ml_add_dbl_near a b = do round near; fadd a b

  unfoldable pub ml_add_dbl_up : D → D → M D
  ml_add_dbl_up a b = do round up; fadd a b

  unfoldable pub ml_add_dbl_down : D → D → M D
  ml_add_dbl_down a b = do round up; pure (neg (← fsub (neg a) b))

  unfoldable pub ml_add_dbl_zero : D → D → M D
  ml_add_dbl_zero a b = do round toward_zero; fadd a b

  unfoldable pub ml_sub_dbl_near : D → D → M D
  ml_sub_dbl_near a b = do round near; fsub a b

  unfoldable pub ml_sub_dbl_up : D → D → M D
  ml_sub_dbl_up a b = do round up; fsub a b

  unfoldable pub ml_sub_dbl_down : D → D → M D
  ml_sub_dbl_down a b = do round up; pure (neg (← fadd (neg a) b))

  unfoldable pub ml_sub_dbl_zero : D → D → M D
  ml_sub_dbl_zero a b = do round toward_zero; fsub a b

module _ {D S : Type 0} ⦃d : Format D⦄ ⦃s : Format S⦄ (c : Casts D S) where
  open c use {of_sgl}
  open d use {neg}

  unfoldable pub ml_add_sgl_near : D → D → M D
  ml_add_sgl_near a b = do round near; pure (of_sgl (← fadd (← single c a) (← single c b)))

  unfoldable pub ml_add_sgl_up : D → D → M D
  ml_add_sgl_up a b = do round up; pure (of_sgl (← fadd (← single c a) (← single c b)))

  unfoldable pub ml_add_sgl_down : D → D → M D
  ml_add_sgl_down a b = do
    round up
    pure (of_sgl (s.neg (← fsub (← single c (neg a)) (← single c b))))

  unfoldable pub ml_add_sgl_zero : D → D → M D
  ml_add_sgl_zero a b = do round toward_zero; pure (of_sgl (← fadd (← single c a) (← single c b)))

  unfoldable pub ml_sub_sgl_near : D → D → M D
  ml_sub_sgl_near a b = do round near; pure (of_sgl (← fsub (← single c a) (← single c b)))

  unfoldable pub ml_sub_sgl_up : D → D → M D
  ml_sub_sgl_up a b = do round up; pure (of_sgl (← fsub (← single c a) (← single c b)))

  unfoldable pub ml_sub_sgl_down : D → D → M D
  ml_sub_sgl_down a b = do
    round up
    pure (of_sgl (s.neg (← fadd (← single c (neg a)) (← single c b))))

  unfoldable pub ml_sub_sgl_zero : D → D → M D
  ml_sub_sgl_zero a b = do round toward_zero; pure (of_sgl (← fsub (← single c a) (← single c b)))
