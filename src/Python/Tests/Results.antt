-- ===== src/Python/Tests/Results.antt =====
-- Objects, iterators and memory in miniature.
use mathlib.Core.Path.{◌≡◌}
use mopsa_ocaml.Prelude.{ℕ, pos, inl, false, Option, none, some, ◌==◌, arith}
use mopsa_ocaml.Python.State.{Call, Returns}
use mopsa_ocaml.Python.Iterate.{IterApi, py_object_get_iter, py_sequence_fast}
use mopsa_ocaml.Python.Objects.{ObjectApi}
use mopsa_ocaml.Python.Results.{Answered, py_sequence_fast-Answered}
use mopsa_ocaml.Python.Tests.{api, quiet}

-- Memory is exhausted.
abbrev objects : ObjectApi ℕ (Unit {0})
objects = record {
  helper = λ type n s. (none, s);
  clear = λ o s. (tt, s);
  set_type = λ o type s. (tt, s);
  long_from_long = λ n s. (some 71, s);
  module_add_object = λ m o s. (pos 0, s);
}

-- No object has tp_iter, so that one that is not a sequence cannot be iterated over; 80 is the list of
-- each iterator.
abbrev iters : IterApi ℕ (Unit {0})
iters = record {
  same = λ a b. a == b;
  is_dict = λ o. false;
  is_list_exact = λ o. o == 80;
  is_tuple_exact = λ o. o == 1;
  is_iter = λ o. o == 7;
  tp_iter = λ o. none;
  seq_iter_new = λ o s. (some o, s);
  sequence_list = λ i s. (some 80, s);
}

no_slot : (f : ℕ → Call ℕ (Unit {0}) (Option ℕ)) → ¬ (none ≡ some f)
no_slot f e = ground arith

py_sequence_fast-Answered_example :
    Returns (py_sequence_fast api iters none quiet) Answered
    × Returns (py_object_get_iter api iters 6 quiet) Answered
    × Returns (py_sequence_fast api iters (some 6) quiet) Answered
py_sequence_fast-Answered_example =
    py_sequence_fast-Answered api iters 6 quiet (λ s. inl (ground arith))
      (λ f e s. absurd (no_slot f e)) (λ i s. inl (ground arith))
