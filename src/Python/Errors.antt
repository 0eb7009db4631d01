-- ===== src/Python/Errors.antt =====
-- The functions of cpython/Python.c that raise and clear exceptions.
use mopsa_ocaml.Prelude.{ℕ, Bool, true, false, Option, none, some, if◌then◌else◌}
use mopsa_ocaml.Python.State.{
  Message, no_message, bad_argument, bad_internal_call, null_argument, formatted, State, M, pure,
  occurred, ◌>>=◌, ◌>>◌, Api,
}

module _ {O W : Type 0} where
  unfoldable pub py_err_clear : M O W (Unit {0})
  py_err_clear s = some (tt, record s { exc_state = none; exc_msg = no_message })

  unfoldable pub py_err_set_none : Option O → M O W (Unit {0})
  py_err_set_none o s = some (tt, record s { exc_state = o; exc_msg = no_message })

  unfoldable pub py_err_set_string : Option O → Message → M O W (Unit {0})
  py_err_set_string o msg s = some (tt, record s { exc_state = o; exc_msg = msg })

  -- The message is the one that vasprintf writes.
  unfoldable pub py_err_format : Option O → M O W (Option O)
  py_err_format o = do py_err_set_string o formatted; pure none

  -- The test of the pending exception against one, null or not.
  module _ (same : O → O → Bool) where
    unfoldable pub py_err_exception_matches : Option O → State O W → Bool
    py_err_exception_matches lexc s = elim s.exc_state [
      | none ↦ elim lexc [ none ↦ true | some o ↦ false ]
      | some e ↦ elim lexc [ none ↦ false | some o ↦ same e o ]
    ]

  module _ (api : Api O W) where
    unfoldable pub py_err_no_memory : M O W (Option O)
    py_err_no_memory = do py_err_set_string (some api.memory_error) no_message; pure none

    unfoldable pub py_err_bad_argument : M O W ℕ
    py_err_bad_argument = do py_err_set_string (some api.type_error) bad_argument; pure 0

    unfoldable pub py_err_bad_internal_call : M O W (Unit {0})
    py_err_bad_internal_call = py_err_set_string (some api.system_error) bad_internal_call

    unfoldable pub null_error : M O W (Option O)
    null_error s =
        if occurred s
        then some (none, s)
        else (do py_err_set_string (some api.system_error) null_argument; pure none) s

    -- The message names the type of the object.
    unfoldable pub type_error : M O W (Option O)
    type_error = do py_err_format (some api.type_error) >>= λ _. pure none
