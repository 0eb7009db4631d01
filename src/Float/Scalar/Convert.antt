-- ===== src/Float/Scalar/Convert.antt =====
-- OP_DD_D, OP_D_D, OP_D_V and OP_V_D of utils/itvUtils/floats_round.c: remainders, square roots,
-- roundings, and conversions to and from integers.
use mopsa_ocaml.Float.Fpu.{
  Format, Casts, near, up, down, toward_zero, M, pure, ◌>>=◌, ◌>>◌, round, single, in_mode,
}
use mopsa_ocaml.Float.Math.{Math}

module _ {D : Type 0} ⦃d : Format D⦄ (h : Math D) where
  open d use {neg}
  open h use {fmod, sqrt, rint}

  unfoldable pub ml_mod_dbl_near : D → D → M D
  ml_mod_dbl_near a b = do round near; pure (fmod a b)

  unfoldable pub ml_mod_dbl_up : D → D → M D
  ml_mod_dbl_up a b = do round up; pure (fmod a b)

  unfoldable pub ml_mod_dbl_down : D → D → M D
  ml_mod_dbl_down a b = do round up; pure (neg (fmod (neg a) b))

  unfoldable pub ml_mod_dbl_zero : D → D → M D
  ml_mod_dbl_zero a b = do round toward_zero; pure (fmod a b)

  unfoldable pub ml_sqrt_dbl_near : D → M D
  ml_sqrt_dbl_near a = do round near; in_mode sqrt a

  unfoldable pub ml_sqrt_dbl_up : D → M D
  ml_sqrt_dbl_up a = do round up; in_mode sqrt a

  unfoldable pub ml_sqrt_dbl_down : D → M D
  ml_sqrt_dbl_down a = do round down; in_mode sqrt a

  unfoldable pub ml_sqrt_dbl_zero : D → M D
  ml_sqrt_dbl_zero a = do round toward_zero; in_mode sqrt a

  unfoldable pub ml_round_int_dbl_near : D → M D
  ml_round_int_dbl_near a = do round near; in_mode rint a

  unfoldable pub ml_round_int_dbl_up : D → M D
  ml_round_int_dbl_up a = do round up; in_mode rint a

  unfoldable pub ml_round_int_dbl_down : D → M D
  ml_round_int_dbl_down a = do round up; pure (neg (← in_mode rint (neg a)))

  unfoldable pub ml_round_int_dbl_zero : D → M D
  ml_round_int_dbl_zero a = do round toward_zero; in_mode rint a

module _ {D S : Type 0} ⦃d : Format D⦄ ⦃s : Format S⦄ (c : Casts D S) where
  open c use {of_sgl}
  open d use {neg}

  unfoldable pub ml_to_sgl_near : D → M D
  ml_to_sgl_near a = do round near; pure (of_sgl (← single c a))

  unfoldable pub ml_to_sgl_up : D → M D
  ml_to_sgl_up a = do round up; pure (of_sgl (← single c a))

  unfoldable pub ml_to_sgl_down : D → M D
  ml_to_sgl_down a = do round up; pure (of_sgl (s.neg (← single c (neg a))))

  unfoldable pub ml_to_sgl_zero : D → M D
  ml_to_sgl_zero a = do round toward_zero; pure (of_sgl (← single c a))

  module _ (h : Math S) where
    open h use {fmod, sqrt, rint}

    unfoldable pub ml_mod_sgl_near : D → D → M D
    ml_mod_sgl_near a b = do round near; pure (of_sgl (fmod (← single c a) (← single c b)))

    unfoldable pub ml_mod_sgl_up : D → D → M D
    ml_mod_sgl_up a b = do round up; pure (of_sgl (fmod (← single c a) (← single c b)))

    unfoldable pub ml_mod_sgl_down : D → D → M D
    ml_mod_sgl_down a b = do
      round up
      pure (of_sgl (s.neg (fmod (← single c (neg a)) (← single c b))))

    unfoldable pub ml_mod_sgl_zero : D → D → M D
    ml_mod_sgl_zero a b = do round toward_zero; pure (of_sgl (fmod (← single c a) (← single c b)))

    unfoldable pub ml_sqrt_sgl_near : D → M D
    ml_sqrt_sgl_near a = do round near; pure (of_sgl (← in_mode sqrt (← single c a)))

    unfoldable pub ml_sqrt_sgl_up : D → M D
    ml_sqrt_sgl_up a = do round up; pure (of_sgl (← in_mode sqrt (← single c a)))

    unfoldable pub ml_sqrt_sgl_down : D → M D
    ml_sqrt_sgl_down a = do round down; pure (of_sgl (← in_mode sqrt (← single c a)))

    unfoldable pub ml_sqrt_sgl_zero : D → M D
    ml_sqrt_sgl_zero a = do round toward_zero; pure (of_sgl (← in_mode sqrt (← single c a)))

    unfoldable pub ml_round_int_sgl_near : D → M D
    ml_round_int_sgl_near a = do round near; pure (of_sgl (← in_mode rint (← single c a)))

    unfoldable pub ml_round_int_sgl_up : D → M D
    ml_round_int_sgl_up a = do round up; pure (of_sgl (← in_mode rint (← single c a)))

    unfoldable pub ml_round_int_sgl_down : D → M D
    ml_round_int_sgl_down a = do
      round up
      pure (of_sgl (s.neg (← in_mode rint (← single c (neg a)))))

    unfoldable pub ml_round_int_sgl_zero : D → M D
    ml_round_int_sgl_zero a = do round toward_zero; pure (of_sgl (← in_mode rint (← single c a)))
