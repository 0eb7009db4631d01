-- ===== src/Python/Convert.antt =====
-- The argument conversions of cpython/python_stubs.c. `*result` is an argument and a result.
use mopsa_ocaml.Prelude.{ℕ, ℤ, pos, negsuc, Bool, false, some, ltb, if◌then◌else◌}
use mopsa_ocaml.Python.State.{
  int_too_large, int_too_small, short_too_large, short_too_small, M, pure, call, ◌>>=◌, ◌>>◌, Api,
}
use mopsa_ocaml.Python.Errors.{py_err_set_string}
use mopsa_ocaml.Python.Index.{is_error}

-- `ival > max`, and `ival < -max - 1`.
abbrev pub is_above : ℕ → ℤ → Bool
is_above max (pos n) = ltb max n
is_above max (negsuc n) = false

abbrev pub is_below : ℕ → ℤ → Bool
is_below max (pos n) = false
is_below max (negsuc n) = ltb max n

module _ {O W : Type 0} (api : Api O W) where
  unfoldable pub py_parse_tuple_int_helper : O → ℤ → M O W (ℕ × ℤ)
  py_parse_tuple_int_helper obj result = call (api.long_as_long obj) >>= λ ival s.
      if is_error ival s
      then some ((0, result), s)
      else if is_above 2147483647 ival
      then (do py_err_set_string (some api.overflow_error) int_too_large; pure (0, result)) s
      else if is_below 2147483647 ival
      then (do py_err_set_string (some api.overflow_error) int_too_small; pure (0, result)) s
      else some ((1, ival), s)

  unfoldable pub py_parse_tuple_shortint_helper : O → ℤ → M O W (ℕ × ℤ)
  py_parse_tuple_shortint_helper obj result = call (api.long_as_long obj) >>= λ ival s.
      if is_error ival s
      then some ((0, result), s)
      else if is_below 32767 ival
      then (do py_err_set_string (some api.overflow_error) short_too_small; pure (0, result)) s
      else if is_above 32767 ival
      then (do py_err_set_string (some api.overflow_error) short_too_large; pure (0, result)) s
      else some ((1, ival), s)
