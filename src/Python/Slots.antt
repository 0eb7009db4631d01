-- ===== src/Python/Slots.antt =====
-- The slot wrappers of cpython/Python.c that unpack a tuple or pass all their arguments on.
use mopsa_ocaml.Prelude.{ℕ, ℤ, pos, Option, none, some, if◌then◌else◌, ◌==◌}
use mopsa_ocaml.Python.State.{
  error_without_exception, M, Call, pure, call, occurred, ◌>>=◌, ◌>>◌, Api,
}
use mopsa_ocaml.Python.Errors.{py_err_set_string}
use mopsa_ocaml.Python.Index.{is_error, is_minus_one, getindex, py_number_as_ssize_t}
use mopsa_ocaml.Python.Wrappers.{check_num_args, wrap_richcmpfunc}

-- PyArg_UnpackTuple for one and for two arguments, with `none` where it returns 0; PyTuple_GetItem,
-- PyTuple_GetSlice and the slot tp_new of a type.
pub record TupleApi (O W : Type 0) : Type 0 where
  pub unpack_one : O → Call O W (Option O)
  pub unpack_two : O → Call O W (Option (O × O))
  pub get_item : O → ℕ → Call O W (Option O)
  pub get_slice : O → ℤ → ℤ → Call O W (Option O)
  pub tp_new : O → Option O → Option O → Option O → Call O W (Option O)

-- Py_LT to Py_GE of the header object.h.
pub record Comparisons : Type 0 where
  pub lt : ℕ
  pub le : ℕ
  pub eq : ℕ
  pub ne : ℕ
  pub gt : ℕ
  pub ge : ℕ

module _ {O W : Type 0} (api : Api O W) where
  -- -1 with no exception pending is an error too.
  unfoldable pub wrap_objobjargproc :
      TupleApi O W → O → O → (O → O → O → Call O W ℤ) → M O W (Option O)
  wrap_objobjargproc tuples self args func = call (tuples.unpack_two args) >>= λ pair. elim pair [
    | none ↦ pure none
    | some kv ↦ call (func self kv.0 kv.1) >>= λ res s.
        if is_minus_one res
        then (if occurred s
            then some (none, s)
            else (do py_err_set_string (some api.system_error) error_without_exception; pure none)
                s)
        else some (some api.none_object, s)
  ]

  unfoldable pub wrap_sq_setitem :
      TupleApi O W → O → O → (O → ℤ → O → Call O W ℤ) → M O W (Option O)
  wrap_sq_setitem tuples self args func = call (tuples.unpack_two args) >>= λ pair. elim pair [
    | none ↦ pure none
    | some kv ↦ getindex api self (some kv.0) >>= λ i s.
        if is_error i s
        then some (none, s)
        else (call (func self i kv.1) >>= λ res t.
              some (if is_error res t then none else some api.none_object, t))
            s
  ]

  unfoldable pub wrap_indexargfunc :
      TupleApi O W → O → O → (O → ℤ → Call O W (Option O)) → M O W (Option O)
  wrap_indexargfunc tuples self args func = call (tuples.unpack_one args) >>= λ arg. elim arg [
    | none ↦ pure none
    | some o ↦ py_number_as_ssize_t api (some o) >>= λ i s.
        if is_error i s then some (none, s) else some (func self i s)
  ]

  -- The slice is of the arguments after the first.
  unfoldable pub tp_new_wrapper : TupleApi O W → O → O → Option O → M O W (Option O)
  tp_new_wrapper tuples self args kwds = call (tuples.get_item args 0) >>= λ arg0.
      call (api.tuple_size args) >>= λ size.
      call (tuples.get_slice args (pos 1) size) >>= λ rest. call (tuples.tp_new self arg0 rest kwds)

  unfoldable pub wrap_call :
      O → O → Option O → (O → O → Option O → Call O W (Option O)) → M O W (Option O)
  wrap_call self args kwds func = call (func self args kwds)

  unfoldable pub wrap_binaryfunc_l : O → O → (O → Option O → Call O W (Option O)) → M O W (Option O)
  wrap_binaryfunc_l self args func = check_num_args api args 1 >>= λ ok.
      if ok == 0
      then pure none
      else (call (api.tuple_get_item args 0) >>= λ other. call (func self other))

  module _ (ops : Comparisons) (self args : O)
      (wrapped : O → Option O → ℕ → Call O W (Option O)) where
    unfoldable pub richcmp_lt : M O W (Option O)
    unfolding wrap_richcmpfunc
    richcmp_lt = wrap_richcmpfunc api self args wrapped ops.lt

    unfoldable pub richcmp_le : M O W (Option O)
    unfolding wrap_richcmpfunc
    richcmp_le = wrap_richcmpfunc api self args wrapped ops.le

    unfoldable pub richcmp_eq : M O W (Option O)
    unfolding wrap_richcmpfunc
    richcmp_eq = wrap_richcmpfunc api self args wrapped ops.eq

    unfoldable pub richcmp_ne : M O W (Option O)
    unfolding wrap_richcmpfunc
    richcmp_ne = wrap_richcmpfunc api self args wrapped ops.ne

    unfoldable pub richcmp_gt : M O W (Option O)
    unfolding wrap_richcmpfunc
    richcmp_gt = wrap_richcmpfunc api self args wrapped ops.gt

    unfoldable pub richcmp_ge : M O W (Option O)
    unfolding wrap_richcmpfunc
    richcmp_ge = wrap_richcmpfunc api self args wrapped ops.ge
