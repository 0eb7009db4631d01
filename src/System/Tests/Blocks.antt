-- ===== src/System/Tests/Blocks.antt =====
-- A block that is allocated, moved and freed.
use mopsa_ocaml.Prelude.{pos, refl, inl, inr, arith}
use mopsa_ocaml.Stub.Memory.{Ptr, at}
use mopsa_ocaml.Stub.Sample.{sample, ab}
use mopsa_ocaml.System.World.{World, heap, freed}
use mopsa_ocaml.System.Heap.{malloc, realloc, free}
use mopsa_ocaml.System.Roundtrip.{Restored}
use mopsa_ocaml.System.Roundtrip.Blocks.{Moved, malloc-free, realloc-Moved}
use mopsa_ocaml.System.Tests.{start, made, filled, filled-NewResource, made-NewResource}

abbrev allocated : World
allocated = made heap 3 16 (pos 0) start

abbrev pub block : Ptr
block = at 3 (pos 0)

mallocs : (malloc 16).ensures start block allocated
unfolding malloc
mallocs = inl (3, made-NewResource heap 3 16 (pos 0) start refl, refl, refl)

frees : (free block).ensures allocated (record {}) (freed allocated 3)
unfolding free
frees = inr (ground arith, refl)

malloc-free_example : (free block).requires allocated × Restored start (freed allocated 3)
malloc-free_example =
    malloc-free 16 start block allocated (record {}) (freed allocated 3) mallocs (ground arith)
      frees

-- The block of "ab" with room for 2 bytes.
abbrev pub moved : World
moved = filled (λ o. sample.cell 1 o) heap 3 2 (pos 0) start

pub reallocs : (realloc ab 2).ensures start block (freed moved 1)
unfolding realloc
reallocs = inr (
    inr (
      inr (
        inl (
          ground arith,
          omega arith,
          (
            moved,
            (3, filled-NewResource (λ o. sample.cell 1 o) heap 3 2 (pos 0) start refl, refl, refl),
            (λ le i low high. refl),
            (λ le i low high. refl),
            refl,
          ),
        ))))

realloc-Moved_example : Moved ab 2 start block (freed moved 1)
realloc-Moved_example = realloc-Moved 1 2 start block (freed moved 1) refl reallocs (ground arith)
