-- ===== src/Python/Results.antt =====
-- How the functions of cpython/Python.c on iteration, objects and memory end.
use mathlib.Core.Path.{◌≡◌}
use mopsa_ocaml.Prelude.{
  ℕ, pos, ◌≢◌, ◌⊎◌, ◌==◌, if◌then◌else◌, inl, inr, true, Option, none, some, arith, Option-cases,
  Bool-cases, ◌||◌,
}
use mopsa_ocaml.Stub.Memory.{Ptr, null, at}
use mopsa_ocaml.System.World.{World, Errno}
use mopsa_ocaml.System.Heap.{realloc}
use mopsa_ocaml.System.Roundtrip.Blocks.{Moved, realloc-Moved}
use mopsa_ocaml.Python.State.{State, M, Call, Occurred, Returns, and_then, Api}
use mopsa_ocaml.Python.Errors.{
  py_err_exception_matches, py_err_set_string, py_err_format, py_err_no_memory, type_error,
  null_error,
}
use mopsa_ocaml.Python.Iterate.{
  IterApi, py_sequence_check, py_object_get_iter, list_from, py_sequence_fast,
}
use mopsa_ocaml.Python.Objects.{ObjectApi, py_type_generic_alloc, py_object_new, py_mem_realloc}

module _ {O W : Type 0} where
  -- What follows a call holds of its outcome.
  Returns-and_then :
      {A B : Type 0} (x : Option (A × State O W)) (f : A → M O W B) (P : A → State O W → Type 0)
      (Q : B → State O W → Type 0)
      → Returns x P
      → ((a : A) (t : State O W) → P a t → Returns (f a t) Q)
      → Returns (and_then x f) Q
  Returns-and_then none f P Q h k = absurd h
  Returns-and_then (some (a, t)) f P Q h k = k a t h

  -- An object, or an exception.
  abbrev pub Answered : Option O → State O W → Type 0
  Answered r t = (r ≢ none) ⊎ Occurred t

  -- The call answers from every state.
  abbrev pub Answers : Call O W (Option O) → Type 0
  Answers f = (s : State O W) → Answered (f s).0 (f s).1

  module _ (api : Api O W) where
    -- Where PyType_GenericAlloc_Helper returns null, _PyObject_New writes through a null pointer,
    -- and PyType_GenericAlloc ends with null and an exception pending.
    py_object_new_null :
        (objects : ObjectApi O W) (type : O) (s : State O W)
        → (objects.helper type (pos 0) s).0 ≡ none
        → (py_object_new api objects type s ≡ none)
          × Returns
              (py_type_generic_alloc api objects type (pos 0) s)
              (λ r t. (r ≡ none) × Occurred t)
    unfolding py_object_new py_type_generic_alloc py_err_no_memory py_err_set_string
    py_object_new_null objects type s failed = (ground arith, ground arith)

    module _ (iters : IterApi O W) where
      py_object_get_iter-Answered :
          (o : O) (s : State O W)
          → Answers (iters.seq_iter_new o)
          → ((f : O → Call O W (Option O)) → iters.tp_iter o ≡ some f → Answers (f o))
          → Returns (py_object_get_iter api iters o s) Answered
      unfolding py_object_get_iter py_sequence_check py_err_format py_err_set_string type_error
      py_object_get_iter-Answered o s seq slot = elim (Option-cases (iters.tp_iter o)) [
        | inl e ↦ rw (Returns, e) ground (arith, seq s)
        | inr (f, e) ↦ rw (Returns, e) ground (arith, slot f e s)
      ]

      list_from-Answered :
          (it : Option O) (t : State O W)
          → Answered it t
          → ((i : O) → Answers (iters.sequence_list i))
          → Returns (list_from api iters it t) Answered
      unfolding list_from py_err_set_string py_err_exception_matches
      list_from-Answered none t answer lists = ground (arith, answer)
      list_from-Answered (some i) t answer lists = ground (arith, lists i t)

      -- If PySeqIter_New and tp_iter of an object, and PySequence_List of any, give an object or
      -- leave an exception pending, then from any state PyObject_GetIter of that object and
      -- PySequence_Fast of it and of null end with an object or with an exception pending.
      pub py_sequence_fast-Answered :
          (v : O) (s : State O W)
          → Answers (iters.seq_iter_new v)
          → ((f : O → Call O W (Option O)) → iters.tp_iter v ≡ some f → Answers (f v))
          → ((i : O) → Answers (iters.sequence_list i))
          → Returns (py_sequence_fast api iters none s) Answered
            × Returns (py_object_get_iter api iters v s) Answered
            × Returns (py_sequence_fast api iters (some v) s) Answered
      unfolding py_sequence_fast null_error py_err_set_string
      py_sequence_fast-Answered v s seq slot lists =
          let iter = py_object_get_iter-Answered v s seq slot in
          (
            ground arith,
            iter,
            elim (Bool-cases (iters.is_list_exact v || iters.is_tuple_exact v)) [
              | inl e ↦ rw (Returns, e) ground arith
              | inr e ↦
                  rw (Returns, e)
                    (Returns-and_then (py_object_get_iter api iters v s) (list_from api iters)
                      Answered Answered iter (λ it t answer. list_from-Answered it t answer lists))
            ],
          )

-- PyMem_Realloc of the start of a live block, to size 0 too, either gives a live block with the
-- size asked for, or one byte for 0, with the old contents as far as both reach and the old block
-- freed, or returns null and changes nothing but errno.
py_mem_realloc-Moved :
    (b n : ℕ) (w : World) (r : Ptr) (w' : World)
    → w.memory.alive b ≡ true
    → (py_mem_realloc (at b (pos 0)) n).ensures w r w'
    → ((r ≢ null) × Moved (at b (pos 0)) (if n == 0 then 1 else n) w r w')
      ⊎ ((r ≡ null) × Errno w w')
unfolding py_mem_realloc realloc
py_mem_realloc-Moved b n w r w' live (inl e) = absurd (ground arith)
py_mem_realloc-Moved b n w r w' live (inr (inl e)) = absurd (ground arith)
py_mem_realloc-Moved b n w r w' live (inr (inr (inl e))) = absurd (ground arith)
py_mem_realloc-Moved b n w r w' live (inr (inr (inr (inl e)))) =
    let (c, _, _, at_c) = e.2.1 in
    inl (
      (λ h. ground arith),
      realloc-Moved b (if n == 0 then 1 else n) w r w' live (inr (inr (inr (inl e))))
          (ground arith),
    )
py_mem_realloc-Moved b n w r w' live (inr (inr (inr (inr e)))) = inr (e.1, e.0)
