-- ===== src/Python/Wrappers.antt =====
-- The slot wrappers of cpython/Python.c.
use mopsa_ocaml.Prelude.{ℕ, ℤ, pos, negsuc, Bool, false, Option, none, some, if◌then◌else◌, ◌==◌}
use mopsa_ocaml.Prelude.Integer.{is_negative}
use mopsa_ocaml.Python.State.{
  not_a_tuple, M, Call, pure, call, occurred, assert_occurred, ◌>>=◌, ◌>>◌, Api,
}
use mopsa_ocaml.Python.Errors.{py_err_set_none, py_err_set_string, py_err_format}
use mopsa_ocaml.Python.Index.{is_error, getindex}

-- `n == k`.
abbrev is_count : ℕ → ℤ → Bool
is_count n (pos k) = n == k
is_count n (negsuc k) = false

module _ {O W : Type 0} (api : Api O W) where
  unfoldable pub check_num_args : O → ℕ → M O W ℕ
  check_num_args ob n =
      if api.is_tuple ob
      then (call (api.tuple_size ob) >>= λ size.
          if is_count n size
          then pure 1
          else (call (api.tuple_size ob) >>= λ _.
              py_err_format (some api.type_error) >>= λ _. pure 0))
      else (do py_err_set_string (some api.system_error) not_a_tuple; pure 0)

  unfoldable pub py_bool_from_long : ℤ → O
  py_bool_from_long (pos n) = if n == 0 then api.false_object else api.true_object
  py_bool_from_long (negsuc n) = api.true_object

  unfoldable pub wrap_init : O → O → Option O → (O → O → Option O → Call O W ℤ) → M O W (Option O)
  wrap_init self args kwds func = call (func self args kwds) >>= λ r.
      pure (if is_negative r then none else some api.none_object)

  unfoldable pub wrap_lenfunc : O → (O → Call O W ℤ) → M O W (Option O)
  wrap_lenfunc self func = call (func self) >>= λ res s.
      if is_error res s then some (none, s) else some (api.long_from_ssize_t res s)

  unfoldable pub wrap_sq_item : O → O → (O → ℤ → Call O W (Option O)) → M O W (Option O)
  wrap_sq_item self args func = call (api.tuple_size args) >>= λ size.
      if is_count 1 size
      then (call (api.tuple_get_item args 0) >>= λ arg. getindex api self arg >>= λ i s.
          if is_error i s then some (none, s) else some (func self i s))
      else (check_num_args args 1 >>= λ _. do assert_occurred; pure none)

  unfoldable pub wrap_objobjproc : O → O → (O → Option O → Call O W ℤ) → M O W (Option O)
  wrap_objobjproc self args func = call (api.tuple_get_item args 0) >>= λ value.
      call (func self value) >>= λ res s.
      some (if is_error res s then none else some (py_bool_from_long res), s)

  unfoldable pub wrap_sq_delitem : O → O → (O → ℤ → Option O → Call O W ℤ) → M O W (Option O)
  wrap_sq_delitem self args func = check_num_args args 1 >>= λ ok.
      if ok == 0
      then pure none
      else (call (api.tuple_get_item args 0) >>= λ arg. getindex api self arg >>= λ i s.
          if is_error i s
          then some (none, s)
          else (call (func self i none) >>= λ res t.
                some (if is_error res t then none else some api.none_object, t))
              s)

  unfoldable pub wrap_unaryfunc : O → (O → Call O W (Option O)) → M O W (Option O)
  wrap_unaryfunc self func = call (func self)

  unfoldable pub wrap_richcmpfunc :
      O → O → (O → Option O → ℕ → Call O W (Option O)) → ℕ → M O W (Option O)
  wrap_richcmpfunc self args func op = check_num_args args 1 >>= λ ok.
      if ok == 0
      then pure none
      else (call (api.tuple_get_item args 0) >>= λ other. call (func self other op))

  unfoldable pub wrap_next : O → (O → Call O W (Option O)) → M O W (Option O)
  wrap_next self func = call (func self) >>= λ res s. elim res [
    | some o ↦ some (some o, s)
    | none ↦
        if occurred s
        then some (none, s)
        else (do py_err_set_none (some api.stop_iteration); pure none) s
  ]

  unfoldable pub wrap_binaryfunc : O → O → (O → Option O → Call O W (Option O)) → M O W (Option O)
  wrap_binaryfunc self args func = check_num_args args 1 >>= λ ok.
      if ok == 0
      then pure none
      else (call (api.tuple_get_item args 0) >>= λ other. call (func self other))

  unfoldable pub wrap_binaryfunc_r : O → O → (Option O → O → Call O W (Option O)) → M O W (Option O)
  wrap_binaryfunc_r self args func = check_num_args args 1 >>= λ ok.
      if ok == 0
      then pure none
      else (call (api.tuple_get_item args 0) >>= λ other. call (func other self))
