-- ===== src/Python/Iterate.antt =====
-- Iteration and the remaining sequence functions of cpython/Python.c.
use mopsa_ocaml.Prelude.{ℕ, Bool, ◌||◌, Option, none, some, if◌then◌else◌, ◌==◌}
use mopsa_ocaml.Python.State.{given, M, Call, pure, call, ◌>>=◌, ◌>>◌, Api}
use mopsa_ocaml.Python.Errors.{
  py_err_set_string, py_err_format, py_err_exception_matches, null_error, type_error,
}

-- What the functions below use besides `Api`. A type without tp_iter has `none`.
pub record IterApi (O W : Type 0) : Type 0 where
  pub same : O → O → Bool
  pub is_dict : O → Bool
  pub is_list_exact : O → Bool
  pub is_tuple_exact : O → Bool
  pub is_iter : O → Bool
  pub tp_iter : O → Option (O → Call O W (Option O))
  pub seq_iter_new : O → Call O W (Option O)
  pub sequence_list : O → Call O W (Option O)

module _ {O W : Type 0} (api : Api O W) (iters : IterApi O W) where
  unfoldable pub py_sequence_check : O → ℕ
  py_sequence_check s =
      if iters.is_dict s then 0 else elim (api.sq_item s) [ none ↦ 0 | some item ↦ 1 ]

  unfoldable pub py_object_get_iter : O → M O W (Option O)
  unfolding py_sequence_check
  py_object_get_iter o = elim (iters.tp_iter o) [
    | none ↦ if py_sequence_check o == 0 then type_error api else call (iters.seq_iter_new o)
    | some f ↦ call (f o) >>= λ res. elim res [
      | none ↦ pure none
      | some r ↦ if iters.is_iter r then pure (some r) else py_err_format (some api.type_error)
    ]
  ]

  -- What PySequence_Fast does with the iterator, or null.
  unfoldable pub list_from : Option O → M O W (Option O)
  list_from none s =
      if py_err_exception_matches iters.same (some api.type_error) s
      then (do py_err_set_string (some api.type_error) given; pure none) s
      else some (none, s)
  list_from (some i) s = call (iters.sequence_list i) s

  unfoldable pub py_sequence_fast : Option O → M O W (Option O)
  unfolding py_object_get_iter list_from
  py_sequence_fast none = null_error api
  py_sequence_fast (some v) =
      if iters.is_list_exact v || iters.is_tuple_exact v
      then pure (some v)
      else py_object_get_iter v >>= λ it. list_from it

  unfoldable pub py_object_self_iter : O → M O W (Option O)
  py_object_self_iter obj = pure (some obj)

  unfoldable pub py_object_next_not_implemented : O → M O W (Option O)
  py_object_next_not_implemented self = py_err_format (some api.type_error) >>= λ _. pure none
