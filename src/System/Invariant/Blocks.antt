-- ===== src/System/Invariant/Blocks.antt =====
-- The invariant over the stubs of stdlib.c.
use mopsa_ocaml.Prelude.{ℕ, inl, inr}
use mopsa_ocaml.Stub.Memory.{Ptr}
use mopsa_ocaml.System.World.{World}
use mopsa_ocaml.System.Heap.{base, malloc, calloc, realloc, free, valloc}
use mopsa_ocaml.System.Invariant.{Inv, freed-Inv}
use mopsa_ocaml.System.Invariant.Outcomes.{Errno-Inv, same-Inv, Allocated-Inv}

pub malloc-Inv :
    (n : ℕ) (w : World) (r : Ptr) (w' : World) → (malloc n).ensures w r w' → Inv w → Inv w'
unfolding malloc
malloc-Inv n w r w' (inl a) = Allocated-Inv n w r w' a
malloc-Inv n w r w' (inr (inl e)) = Errno-Inv w w' e.0
malloc-Inv n w r w' (inr (inr e)) = same-Inv w w' e.1

pub calloc-Inv :
    (n k : ℕ) (w : World) (r : Ptr) (w' : World) → (calloc n k).ensures w r w' → Inv w → Inv w'
unfolding calloc
calloc-Inv n k w r w' (inl a) = Allocated-Inv _ w r w' a.0
calloc-Inv n k w r w' (inr (inl e)) = Errno-Inv w w' e.0
calloc-Inv n k w r w' (inr (inr e)) = same-Inv w w' e.1

pub realloc-Inv :
    (p : Ptr) (n : ℕ) (w : World) (r : Ptr) (w' : World)
    → (realloc p n).ensures w r w'
    → Inv w
    → Inv w'
unfolding realloc
realloc-Inv p n w r w' (inl e) inv = same-Inv w w' e.2 inv
realloc-Inv p n w r w' (inr (inl a)) inv = Allocated-Inv n w r w' a.1 inv
realloc-Inv p n w r w' (inr (inr (inl e))) inv = rw e.2 (freed-Inv w (base p) inv)
realloc-Inv p n w r w' (inr (inr (inr (inl (_, _, (w1, a, _, _, e)))))) inv =
    rw e (freed-Inv w1 (base p) (Allocated-Inv n w r w1 a inv))
realloc-Inv p n w r w' (inr (inr (inr (inr e)))) inv = Errno-Inv w w' e.0 inv

pub free-Inv :
    (p : Ptr) (w : World) (r : Unit {0}) (w' : World) → (free p).ensures w r w' → Inv w → Inv w'
unfolding free
free-Inv p w r w' (inl e) inv = same-Inv w w' e.1 inv
free-Inv p w r w' (inr e) inv = rw e.1 (freed-Inv w (base p) inv)

pub valloc-Inv :
    (n : ℕ) (w : World) (r : Ptr) (w' : World) → (valloc n).ensures w r w' → Inv w → Inv w'
unfolding valloc
valloc-Inv n w r w' (inl a) = Allocated-Inv n w r w' a
valloc-Inv n w r w' (inr e) = Errno-Inv w w' e.0
