-- ===== src/System/Heap.antt =====
-- The allocation stubs of share/mopsa/stubs/c/libc/stdlib.c.
use mathlib.Core.Path.{◌≡◌}
use mopsa_ocaml.Prelude.{ℕ, pos, ◌*◌, ◌<◌, ◌≤◌, ◌≢◌, ◌⊎◌}
use mopsa_ocaml.Stub.Memory.{Ptr, null, at, byte, Forall, size_t}
use mopsa_ocaml.System.World.{World, Stub, heap, Errno, IsFreeable, NewResource, freed}

-- `case "failure" { assigns: _errno; ensures: return == NULL; }`.
abbrev pub FailsNull : World → Ptr → World → Type 0
FailsNull w r w' = Errno w w' × (r ≡ null)

-- The case "success" of malloc.
abbrev pub Allocated : ℕ → World → Ptr → World → Type 0
Allocated size w r w' =
    (b : ℕ) × NewResource heap b w w' × (w'.memory.size b ≡ size) × (r ≡ at b (pos 0))

unfoldable pub malloc : ℕ → Stub Ptr
malloc size = record {
  requires = λ w. Unit;
  ensures =
      λ w r w'. Allocated size w r w' ⊎ FailsNull w r w' ⊎ ((size ≡ 0) × (w' ≡ w) × (r ≡ null));
}

unfoldable pub calloc : ℕ → ℕ → Stub Ptr
calloc nmemb size = record {
  requires = λ w. Unit;
  ensures = λ w r w'.
      (Allocated (size_t (nmemb * size)) w r w'
        × Forall 0 (size_t (nmemb * size)) (λ i. byte w'.memory r i ≡ 0))
      ⊎ FailsNull w r w'
      ⊎ (((nmemb ≡ 0) ⊎ (size ≡ 0)) × (w' ≡ w) × (r ≡ null));
}

-- The base of a pointer.
abbrev pub base : Ptr → ℕ
base (at b o) = b
base _ = 0

-- `size(p)`, for a pointer to bytes.
abbrev pub size_of : World → Ptr → ℕ
size_of w p = w.memory.size (base p)

-- The bytes of the old block from its pointer on, in the new block; the world between `new` and `free`.
abbrev pub Resized : Ptr → ℕ → World → Ptr → World → Type 0
Resized ptr size w r w' =
    (w1 : World) × Allocated size w r w1
    × (size ≤ size_of w1 ptr → Forall 0 size (λ i. byte w1.memory r i ≡ byte w1.memory ptr i))
    × (size_of w1 ptr ≤ size
        → Forall 0 (size_of w1 ptr) (λ i. byte w1.memory r i ≡ byte w1.memory ptr i))
    × (w' ≡ freed w1 (base ptr))

unfoldable pub realloc : Ptr → ℕ → Stub Ptr
realloc ptr size = record {
  requires = λ w. ptr ≢ null → IsFreeable w heap ptr;
  ensures = λ w r w'.
      ((ptr ≡ null) × (size ≡ 0) × (w' ≡ w) × (r ≡ null))
      ⊎ ((ptr ≡ null) × Allocated size w r w')
      ⊎ ((ptr ≢ null) × (size ≡ 0) × (w' ≡ freed w (base ptr)) × (r ≡ null))
      ⊎ ((ptr ≢ null) × (0 < size) × Resized ptr size w r w')
      ⊎ FailsNull w r w';
}

-- `offset(ptr) == 0`.
abbrev pub AtStart : Ptr → Type 0
AtStart (at b o) = o ≡ pos 0
AtStart _ = ⊥

unfoldable pub free : Ptr → Stub (Unit {0})
free ptr = record {
  requires = λ w. ptr ≢ null → IsFreeable w heap ptr × AtStart ptr;
  ensures = λ w r w'. ((ptr ≡ null) × (w' ≡ w)) ⊎ ((ptr ≢ null) × (w' ≡ freed w (base ptr)));
}

unfoldable pub valloc : ℕ → Stub Ptr
valloc size = record {
  requires = λ w. Unit;
  ensures = λ w r w'. Allocated size w r w' ⊎ FailsNull w r w';
}
