-- ===== src/Python/Objects.antt =====
-- The functions of cpython/Python.c that make objects, and the allocation of memory, which is
-- libc's. A write through a null pointer is undefined: `none`.
use mopsa_ocaml.Prelude.{ℕ, ℤ, pos, negsuc, Option, none, some, if◌then◌else◌, ◌==◌, ◌||◌}
use mopsa_ocaml.Stub.Memory.{Ptr}
use mopsa_ocaml.System.World.{Stub}
use mopsa_ocaml.System.Heap.{malloc, calloc, realloc, free}
use mopsa_ocaml.Python.State.{M, Call, pure, call, ◌>>=◌, ◌>>◌, Api}
use mopsa_ocaml.Python.Errors.{py_err_no_memory}
use mopsa_ocaml.Python.Index.{minus_one}

-- PyType_GenericAlloc_Helper of a type and a number of items, memset of an object to zeros,
-- `Py_TYPE(obj) = type`, PyLong_FromLong and PyModule_AddObject of a module, a name and an object.
pub record ObjectApi (O W : Type 0) : Type 0 where
  pub helper : O → ℤ → Call O W (Option O)
  pub clear : O → Call O W (Unit {0})
  pub set_type : O → O → Call O W (Unit {0})
  pub long_from_long : ℤ → Call O W (Option O)
  pub module_add_object : O → O → Call O W ℤ

module _ {O W : Type 0} (api : Api O W) (objects : ObjectApi O W) where
  unfoldable pub py_type_generic_alloc : O → ℤ → M O W (Option O)
  py_type_generic_alloc type nitems = call (objects.helper type nitems) >>= λ obj. elim obj [
    | none ↦ py_err_no_memory api
    | some o ↦ do call (objects.clear o); call (objects.set_type o type); pure (some o)
  ]

  -- The object is cleared before the test for null.
  unfoldable pub py_object_new : O → M O W (Option O)
  py_object_new type = call (objects.helper type (pos 0)) >>= λ obj. elim obj [
    | none ↦ λ s. none
    | some o ↦ do call (objects.clear o); call (objects.set_type o type); pure (some o)
  ]

  unfoldable pub py_module_add_int_constant : O → ℤ → M O W ℤ
  py_module_add_int_constant m value = call (objects.long_from_long value) >>= λ o. elim o [
    | none ↦ pure minus_one
    | some v ↦ call (objects.module_add_object m v) >>= λ r. elim r [
      | pos n ↦ if n == 0 then pure (pos 0) else pure minus_one
      | negsuc n ↦ pure minus_one
    ]
  ]

unfoldable pub py_mem_malloc : ℕ → Stub Ptr
unfolding malloc
py_mem_malloc size = malloc (if size == 0 then 1 else size)

unfoldable pub py_mem_calloc : ℕ → ℕ → Stub Ptr
unfolding calloc
py_mem_calloc nelem elsize = if nelem == 0 || elsize == 0 then calloc 1 1 else calloc nelem elsize

unfoldable pub py_mem_realloc : Ptr → ℕ → Stub Ptr
unfolding realloc
py_mem_realloc ptr size = realloc ptr (if size == 0 then 1 else size)

unfoldable pub py_mem_free : Ptr → Stub (Unit {0})
unfolding free
py_mem_free ptr = free ptr
