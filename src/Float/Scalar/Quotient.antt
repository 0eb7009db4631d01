-- ===== src/Float/Scalar/Quotient.antt =====
-- OP_DD_D of utils/itvUtils/floats_round.c: quotients of floats, with 0 / 0 NaN or 0.
use mopsa_ocaml.Float.Fpu.{
  Format, Casts, near, up, toward_zero, M, pure, ◌>>=◌, ◌>>◌, round, single, fdiv, fdivz,
}

module _ {D : Type 0} ⦃d : Format D⦄ where
  open d use {neg}

  unfoldable pub ml_div_dbl_near : D → D → M D
  ml_div_dbl_near a b = do round near; fdiv a b

  unfoldable pub ml_div_dbl_up : D → D → M D
  ml_div_dbl_up a b = do round up; fdiv a b

  unfoldable pub ml_div_dbl_down : D → D → M D
  ml_div_dbl_down a b = do round up; pure (neg (← fdiv (neg a) b))

  unfoldable pub ml_div_dbl_zero : D → D → M D
  ml_div_dbl_zero a b = do round toward_zero; fdiv a b

  unfoldable pub ml_divz_dbl_near : D → D → M D
  ml_divz_dbl_near a b = do round near; fdivz a b

  unfoldable pub ml_divz_dbl_up : D → D → M D
  ml_divz_dbl_up a b = do round up; fdivz a b

  unfoldable pub ml_divz_dbl_down : D → D → M D
  ml_divz_dbl_down a b = do round up; pure (neg (← fdivz (neg a) b))

  unfoldable pub ml_divz_dbl_zero : D → D → M D
  ml_divz_dbl_zero a b = do round toward_zero; fdivz a b

module _ {D S : Type 0} ⦃d : Format D⦄ ⦃s : Format S⦄ (c : Casts D S) where
  open c use {of_sgl}
  open d use {neg}

  unfoldable pub ml_div_sgl_near : D → D → M D
  ml_div_sgl_near a b = do round near; pure (of_sgl (← fdiv (← single c a) (← single c b)))

  unfoldable pub ml_div_sgl_up : D → D → M D
  ml_div_sgl_up a b = do round up; pure (of_sgl (← fdiv (← single c a) (← single c b)))

  unfoldable pub ml_div_sgl_down : D → D → M D
  ml_div_sgl_down a b = do
    round up
    pure (of_sgl (s.neg (← fdiv (← single c (neg a)) (← single c b))))

  unfoldable pub ml_div_sgl_zero : D → D → M D
  ml_div_sgl_zero a b = do round toward_zero; pure (of_sgl (← fdiv (← single c a) (← single c b)))

  unfoldable pub ml_divz_sgl_near : D → D → M D
  ml_divz_sgl_near a b = do round near; pure (of_sgl (← fdivz (← single c a) (← single c b)))

  unfoldable pub ml_divz_sgl_up : D → D → M D
  ml_divz_sgl_up a b = do round up; pure (of_sgl (← fdivz (← single c a) (← single c b)))

  unfoldable pub ml_divz_sgl_down : D → D → M D
  ml_divz_sgl_down a b = do
    round up
    pure (of_sgl (s.neg (← fdivz (← single c (neg a)) (← single c b))))

  unfoldable pub ml_divz_sgl_zero : D → D → M D
  ml_divz_sgl_zero a b = do round toward_zero; pure (of_sgl (← fdivz (← single c a) (← single c b)))
