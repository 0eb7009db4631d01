-- ===== src/Float/Scalar/Product.antt =====
-- OP_DD_D of utils/itvUtils/floats_round.c: products of floats, with 0 * infinity NaN or 0.
use mopsa_ocaml.Float.Fpu.{
  Format, Casts, near, up, toward_zero, M, pure, ◌>>=◌, ◌>>◌, round, single, fmul, fmulz,
}

module _ {D : Type 0} ⦃d : Format D⦄ where
  open d use {neg}

  unfoldable pub ml_mul_dbl_near : D → D → M D
  ml_mul_dbl_near a b = do round near; fmul a b

  unfoldable pub ml_mul_dbl_up : D → D → M D
  ml_mul_dbl_up a b = do round up; fmul a b

  unfoldable pub ml_mul_dbl_down : D → D → M D
  ml_mul_dbl_down a b = do round up; pure (neg (← fmul (neg a) b))

  unfoldable pub ml_mul_dbl_zero : D → D → M D
  ml_mul_dbl_zero a b = do round toward_zero; fmul a b

  unfoldable pub ml_mulz_dbl_near : D → D → M D
  ml_mulz_dbl_near a b = do round near; fmulz a b

  unfoldable pub ml_mulz_dbl_up : D → D → M D
  ml_mulz_dbl_up a b = do round up; fmulz a b

  unfoldable pub ml_mulz_dbl_down : D → D → M D
  ml_mulz_dbl_down a b = do round up; pure (neg (← fmulz (neg a) b))

  unfoldable pub ml_mulz_dbl_zero : D → D → M D
  ml_mulz_dbl_zero a b = do round toward_zero; fmulz a b

module _ {D S : Type 0} ⦃d : Format D⦄ ⦃s : Format S⦄ (c : Casts D S) where
  open c use {of_sgl}
  open d use {neg}

  unfoldable pub ml_mul_sgl_near : D → D → M D
  ml_mul_sgl_near a b = do round near; pure (of_sgl (← fmul (← single c a) (← single c b)))

  unfoldable pub ml_mul_sgl_up : D → D → M D
  ml_mul_sgl_up a b = do round up; pure (of_sgl (← fmul (← single c a) (← single c b)))

  unfoldable pub ml_mul_sgl_down : D → D → M D
  ml_mul_sgl_down a b = do
    round up
    pure (of_sgl (s.neg (← fmul (← single c (neg a)) (← single c b))))

  unfoldable pub ml_mul_sgl_zero : D → D → M D
  ml_mul_sgl_zero a b = do round toward_zero; pure (of_sgl (← fmul (← single c a) (← single c b)))

  unfoldable pub ml_mulz_sgl_near : D → D → M D
  ml_mulz_sgl_near a b = do round near; pure (of_sgl (← fmulz (← single c a) (← single c b)))

  unfoldable pub ml_mulz_sgl_up : D → D → M D
  ml_mulz_sgl_up a b = do round up; pure (of_sgl (← fmulz (← single c a) (← single c b)))

  unfoldable pub ml_mulz_sgl_down : D → D → M D
  ml_mulz_sgl_down a b = do
    round up
    pure (of_sgl (s.neg (← fmulz (← single c (neg a)) (← single c b))))

  unfoldable pub ml_mulz_sgl_zero : D → D → M D
  ml_mulz_sgl_zero a b = do round toward_zero; pure (of_sgl (← fmulz (← single c a) (← single c b)))
