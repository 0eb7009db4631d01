-- ===== src/Python/Facts.antt =====
-- The theorems on share/mopsa/stubs/cpython.
use mopsa_ocaml.Prelude.{
  ℕ, ℤ, pos, negsuc, ◌≤◌, ◌≡◌, ◌≢◌, ◌⊎◌, inl, inr, true, false, Option, none, some, arith,
  Option-cases,
}
use mopsa_ocaml.Prelude.Integer.{is_negative}
use mopsa_ocaml.Python.State.{State, Call, Occurred, Returns, Api}
use mopsa_ocaml.Python.Errors.{py_err_set_string, py_err_set_none, py_err_format, null_error}
use mopsa_ocaml.Python.Index.{getindex, py_number_index, py_number_as_ssize_t, py_sequence_get_item}
use mopsa_ocaml.Python.Wrappers.{check_num_args, wrap_next, wrap_sq_item}
use mopsa_ocaml.Python.Convert.{py_parse_tuple_int_helper, py_parse_tuple_shortint_helper}

-- From -max - 1 to max.
abbrev pub Fits : ℕ → ℤ → Type 0
Fits max (pos n) = n ≤ max
Fits max (negsuc n) = n ≤ max

module _ {O W : Type 0} (api : Api O W) where
  -- 1 with the converted value, or 0 with the old one and an exception.
  abbrev pub Converted : ℕ → O → ℤ → State O W → ℕ × ℤ → State O W → Type 0
  Converted max obj result s r t =
      ((r.0 ≡ 1) × (r.1 ≡ (api.long_as_long obj s).0) × Fits max r.1)
      ⊎ ((r.0 ≡ 0) × (r.1 ≡ result) × Occurred t)

  -- From any state PyParseTuple_int_helper ends, and either returns 1 and stores the value that
  -- PyLong_AsLong gave, which fits a 32-bit int, or returns 0 with the target as it was and an
  -- exception pending.
  pub py_parse_tuple_int_helper_lem :
      (obj : O) (result : ℤ) (s : State O W)
      → Returns (py_parse_tuple_int_helper api obj result s) (Converted 2147483647 obj result s)
  unfolding py_parse_tuple_int_helper py_err_set_string
  py_parse_tuple_int_helper_lem obj result s = ground arith

  -- From any state PyParseTuple_shortint_helper ends, and either returns 1 and stores the value
  -- that PyLong_AsLong gave, which fits a 16-bit short, or returns 0 with the target as it was and
  -- an exception pending.
  py_parse_tuple_shortint_helper_lem :
      (obj : O) (result : ℤ) (s : State O W)
      → Returns (py_parse_tuple_shortint_helper api obj result s) (Converted 32767 obj result s)
  unfolding py_parse_tuple_shortint_helper py_err_set_string
  py_parse_tuple_shortint_helper_lem obj result s = ground arith

  -- From any state wrap_next and PyNumber_Index end with a result that is not null or with an
  -- exception pending, and check_num_args ends with 1, or with 0 and an exception pending.
  pub null-Occurred :
      (self : O) (func : O → Call O W (Option O)) (item : Option O) (args : O) (n : ℕ)
      (s : State O W)
      → Returns (wrap_next api self func s) (λ r t. (r ≢ none) ⊎ Occurred t)
        × Returns (py_number_index api item s) (λ r t. (r ≢ none) ⊎ Occurred t)
        × Returns (check_num_args api args n s) (λ r t. (r ≡ 1) ⊎ ((r ≡ 0) × Occurred t))
  unfolding wrap_next py_number_index check_num_args py_err_set_string py_err_set_none py_err_format
      null_error
  null-Occurred self func item args n s = (ground arith, ground arith, ground arith)

  -- For a sequence with an item slot and arguments that hold one int object, which converts to an
  -- index without a change of state, with no exception pending, and a length slot, where there is
  -- one, that leaves none pending unless its result is negative: wrap_sq_item with that slot on the
  -- arguments does and returns what PySequence_GetItem does at the index, negative indexes and a
  -- failed assertion included.
  pub wrap_sq_item-py_sequence_get_item :
      (self args arg : O) (i : ℤ) (item : O → ℤ → Call O W (Option O)) (s : State O W)
      → api.tuple_size args s ≡ (pos 1, s)
      → api.tuple_get_item args 0 s ≡ (some arg, s)
      → api.is_long arg ≡ true
      → api.long_as_ssize_t arg s ≡ (i, s)
      → s.exc_state ≡ none
      → api.sq_item self ≡ some item
      → ((length : O → Call O W ℤ)
          → api.sq_length self ≡ some length
          → is_negative (length self s).0 ≡ false
          → (length self s).1.exc_state ≡ none)
      → wrap_sq_item api self args item s ≡ py_sequence_get_item api (some self) i s
  unfolding wrap_sq_item py_sequence_get_item getindex py_number_as_ssize_t py_number_index
  wrap_sq_item-py_sequence_get_item self args arg (pos i) item s size first long value clear slot
        quiet =
      rw (size, first, long, value) (ground arith)
  wrap_sq_item-py_sequence_get_item self args arg (negsuc i) item s size first long value clear slot
        quiet =
      elim (Option-cases (api.sq_length self)) [
        | inl e ↦ rw (size, first, long, value) (ground arith)
        | inr (length, e) ↦ rw (size, first, long, value) (ground (arith, quiet length e))
      ]
