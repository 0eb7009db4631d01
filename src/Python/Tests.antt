-- ===== src/Python/Tests.antt =====
-- Instances of the theorems on share/mopsa/stubs/cpython.
mod Members
mod Ready
mod Results
use mopsa_ocaml.Prelude.{
  ℕ, ℤ, pos, negsuc, ◌+◌, ◌≡◌, refl, ◌≢◌, ◌⊎◌, true, false, sym, ap, Option, none, some, ◌==◌,
  if◌then◌else◌,
}
use mopsa_ocaml.Prelude.Integer.{is_negative}
use mopsa_ocaml.Python.State.{no_message, State, Call, Occurred, Returns, Api}
use mopsa_ocaml.Python.Index.{py_number_index, py_sequence_get_item}
use mopsa_ocaml.Python.Wrappers.{check_num_args, wrap_next, wrap_sq_item}
use mopsa_ocaml.Python.Convert.{py_parse_tuple_int_helper}
use mopsa_ocaml.Python.Facts.{
  Converted, py_parse_tuple_int_helper_lem, null-Occurred, wrap_sq_item-py_sequence_get_item,
}

-- Objects are numbers. 0 is a sequence of three, whose items are 100 and above; 1 is a tuple that
-- holds 2; 2 stands for -1, and any other number for itself.
abbrev value : ℕ → ℤ
value o = if o == 2 then negsuc 0 else pos o

abbrev item : ℕ → ℤ → Call ℕ (Unit {0}) (Option ℕ)
item o (pos i) s = (some (100 + i), s)
item o (negsuc i) s = (none, s)

abbrev length : ℕ → Call ℕ (Unit {0}) ℤ
length o s = (pos 3, s)

abbrev pub api : Api ℕ (Unit {0})
api = record {
  memory_error = 50;
  type_error = 51;
  system_error = 52;
  overflow_error = 53;
  stop_iteration = 54;
  none_object = 60;
  true_object = 61;
  false_object = 62;
  is_long = λ o. if o == 1 then false else true;
  is_tuple = λ o. o == 1;
  long_as_long = λ o s. (value o, s);
  long_as_ssize_t = λ o s. (value o, s);
  long_from_ssize_t = λ i s. (some 70, s);
  tuple_size = λ o s. (pos 1, s);
  tuple_get_item = λ o i s. (some 2, s);
  sq_length = λ o. if o == 0 then some length else none;
  sq_item = λ o. if o == 0 then some item else none;
}

abbrev pub quiet : State ℕ (Unit {0})
quiet = record { exc_state = none; exc_msg = no_message; world = tt }

-- Too large for an int.
py_parse_tuple_int_helper_lem_example :
    Returns
      (py_parse_tuple_int_helper api 2147483648 (pos 5) quiet)
      (Converted api 2147483647 2147483648 (pos 5) quiet)
py_parse_tuple_int_helper_lem_example = py_parse_tuple_int_helper_lem api 2147483648 (pos 5) quiet

null-Occurred_example :
    Returns (wrap_next api 0 (λ o s. (none, s)) quiet) (λ r t. (r ≢ none) ⊎ Occurred t)
    × Returns (py_number_index api (some 1) quiet) (λ r t. (r ≢ none) ⊎ Occurred t)
    × Returns (check_num_args api 1 2 quiet) (λ r t. (r ≡ 1) ⊎ ((r ≡ 0) × Occurred t))
null-Occurred_example = null-Occurred api 0 (λ o s. (none, s)) (some 1) 1 2 quiet

-- The item at -1.
wrap_sq_item-py_sequence_get_item_example :
    wrap_sq_item api 0 1 item quiet ≡ py_sequence_get_item api (some 0) (negsuc 0) quiet
wrap_sq_item-py_sequence_get_item_example =
    wrap_sq_item-py_sequence_get_item api 0 1 2 (negsuc 0) item quiet refl refl refl refl refl refl
      still
  where
    state_after : Option (ℕ → Call ℕ (Unit {0}) ℤ) → Option ℕ
    state_after none = none
    state_after (some g) = (g 0 quiet).1.exc_state

    still :
        (f : ℕ → Call ℕ (Unit {0}) ℤ)
        → api.sq_length 0 ≡ some f
        → is_negative (f 0 quiet).0 ≡ false
        → (f 0 quiet).1.exc_state ≡ none
    still f e nonneg = ap state_after (sym e)
