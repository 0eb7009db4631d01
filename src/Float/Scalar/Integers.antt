-- ===== src/Float/Scalar/Integers.antt =====
-- OP_D_V and OP_V_D of utils/itvUtils/floats_round.c: conversions of floats to and from integers.
use mopsa_ocaml.Prelude.Integer.{negate64}
use mopsa_ocaml.Float.Fpu.{
  Format, Casts, near, up, toward_zero, M, pure, ◌>>=◌, ◌>>◌, round, in_mode,
}
use mopsa_ocaml.Float.Math.{Math, Runtime}

module _ {D V : Type 0} ⦃d : Format D⦄ (h : Math D) (ocaml : Runtime V) where
  open d use {neg}
  open h use {llrint, truncate, of_int}
  open ocaml use {int64_val, copy_int64, long_val, val_long}

  unfoldable pub ml_to_int64_near : D → M V
  ml_to_int64_near a = do round near; pure (copy_int64 (← in_mode llrint a))

  unfoldable pub ml_to_int64_up : D → M V
  ml_to_int64_up a = do round up; pure (copy_int64 (← in_mode llrint a))

  unfoldable pub ml_to_int64_down : D → M V
  ml_to_int64_down a = do round up; pure (copy_int64 (negate64 (← in_mode llrint (neg a))))

  unfoldable pub ml_to_int64_zero : D → M V
  ml_to_int64_zero a = pure (copy_int64 (truncate a))

  unfoldable pub ml_of_int64_dbl_near : V → M D
  ml_of_int64_dbl_near a = do round near; in_mode of_int (int64_val a)

  unfoldable pub ml_of_int64_dbl_up : V → M D
  ml_of_int64_dbl_up a = do round up; in_mode of_int (int64_val a)

  unfoldable pub ml_of_int64_dbl_down : V → M D
  ml_of_int64_dbl_down a = do round up; pure (neg (← in_mode of_int (negate64 (int64_val a))))

  unfoldable pub ml_of_int64_dbl_zero : V → M D
  ml_of_int64_dbl_zero a = do round toward_zero; in_mode of_int (int64_val a)

  unfoldable pub ml_to_int_near : D → M V
  ml_to_int_near a = do round near; pure (val_long (← in_mode llrint a))

  unfoldable pub ml_to_int_up : D → M V
  ml_to_int_up a = do round up; pure (val_long (← in_mode llrint a))

  unfoldable pub ml_to_int_down : D → M V
  ml_to_int_down a = do round up; pure (val_long (negate64 (← in_mode llrint (neg a))))

  unfoldable pub ml_to_int_zero : D → M V
  ml_to_int_zero a = pure (val_long (truncate a))

  unfoldable pub ml_of_int_dbl_near : V → M D
  ml_of_int_dbl_near a = do round near; in_mode of_int (long_val a)

  unfoldable pub ml_of_int_dbl_up : V → M D
  ml_of_int_dbl_up a = do round up; in_mode of_int (long_val a)

  unfoldable pub ml_of_int_dbl_down : V → M D
  ml_of_int_dbl_down a = do round up; pure (neg (← in_mode of_int (negate64 (long_val a))))

  unfoldable pub ml_of_int_dbl_zero : V → M D
  ml_of_int_dbl_zero a = do round toward_zero; in_mode of_int (long_val a)

module _ {D S V : Type 0} ⦃s : Format S⦄ (c : Casts D S) (h : Math S) (ocaml : Runtime V) where
  open c use {of_sgl}
  open h use {of_int}
  open ocaml use {int64_val, long_val}

  unfoldable pub ml_of_int64_sgl_near : V → M D
  ml_of_int64_sgl_near a = do round near; pure (of_sgl (← in_mode of_int (int64_val a)))

  unfoldable pub ml_of_int64_sgl_up : V → M D
  ml_of_int64_sgl_up a = do round up; pure (of_sgl (← in_mode of_int (int64_val a)))

  unfoldable pub ml_of_int64_sgl_down : V → M D
  ml_of_int64_sgl_down a = do
    round up
    pure (of_sgl (s.neg (← in_mode of_int (negate64 (int64_val a)))))

  unfoldable pub ml_of_int64_sgl_zero : V → M D
  ml_of_int64_sgl_zero a = do round toward_zero; pure (of_sgl (← in_mode of_int (int64_val a)))

  unfoldable pub ml_of_int64_sgl_cur : V → M D
  ml_of_int64_sgl_cur a = do pure (of_sgl (← in_mode of_int (int64_val a)))

  unfoldable pub ml_of_int_sgl_near : V → M D
  ml_of_int_sgl_near a = do round near; pure (of_sgl (← in_mode of_int (long_val a)))

  unfoldable pub ml_of_int_sgl_up : V → M D
  ml_of_int_sgl_up a = do round up; pure (of_sgl (← in_mode of_int (long_val a)))

  unfoldable pub ml_of_int_sgl_down : V → M D
  ml_of_int_sgl_down a = do
    round up
    pure (of_sgl (s.neg (← in_mode of_int (negate64 (long_val a)))))

  unfoldable pub ml_of_int_sgl_zero : V → M D
  ml_of_int_sgl_zero a = do round toward_zero; pure (of_sgl (← in_mode of_int (long_val a)))

  unfoldable pub ml_of_int_sgl_cur : V → M D
  ml_of_int_sgl_cur a = do pure (of_sgl (← in_mode of_int (long_val a)))
