-- ===== src/System/Invariant/Run.antt =====
-- The invariant over the stubs of stdio.c, and over any sequence of calls.
use mopsa_ocaml.Prelude.{ℕ, ℤ, ◌⊎◌, inl, inr, Option, none, some}
use mopsa_ocaml.Stub.Memory.{Ptr}
use mopsa_ocaml.System.World.{World, Headers, freed}
use mopsa_ocaml.System.Heap.{FailsNull, base}
use mopsa_ocaml.System.Descriptors.{dup3}
use mopsa_ocaml.System.Streams.{
  OpensStream, freed_file, fopen, freopen, fdopen, tmpfile, fmemopen, popen, fclose, pclose, fflush,
  fileno,
}
use mopsa_ocaml.System.Steps.{
  Step, call_malloc, call_calloc, call_realloc, call_free, call_valloc, call_open, call_creat,
  call_close, call_dup, call_dup2, call_dup3, call_read, call_write, call_lseek, call_fopen,
  call_freopen, call_fdopen, call_tmpfile, call_fmemopen, call_popen, call_fclose, call_pclose,
  call_fflush, call_fileno, Reach, stop, after,
}
use mopsa_ocaml.System.Invariant.{Inv, freed-Inv}
use mopsa_ocaml.System.Invariant.Outcomes.{Errno-Inv, same-Inv, OpensStream-Inv, OpensStreamAt-Inv}
use mopsa_ocaml.System.Invariant.Blocks.{malloc-Inv, calloc-Inv, realloc-Inv, free-Inv, valloc-Inv}
use mopsa_ocaml.System.Invariant.Files.{
  open_file-Inv, creat-Inv, close-Inv, dup-Inv, dup2-Inv, read-Inv, write-Inv, lseek-Inv,
}

-- The outcomes of the functions that open a stream.
abbrev pub OpensOrFails : Headers → World → Ptr → World → Type 0
OpensOrFails sys w r w' = OpensStream sys w r w' ⊎ FailsNull w r w'

OpensOrFails-Inv :
    (sys : Headers) (w : World) (r : Ptr) (w' : World) → OpensOrFails sys w r w' → Inv w → Inv w'
OpensOrFails-Inv sys w r w' (inl e) = OpensStream-Inv sys w r w' e
OpensOrFails-Inv sys w r w' (inr e) = Errno-Inv w w' e.0

fdopen-Inv :
    (sys : Headers) (fd : ℕ) (modes : Ptr) (w : World) (r : Ptr) (w' : World)
    → (fdopen sys fd modes).ensures w r w'
    → Inv w
    → Inv w'
unfolding fdopen
fdopen-Inv sys fd modes w r w' (inl e) = OpensStreamAt-Inv sys fd w r w' e
fdopen-Inv sys fd modes w r w' (inr e) = Errno-Inv w w' e.0

freopen-Inv :
    (name modes s : Ptr) (w : World) (r : Ptr) (w' : World)
    → (freopen name modes s).ensures w r w'
    → Inv w
    → Inv w'
unfolding freopen
freopen-Inv name modes s w r w' (inl e) = same-Inv w w' e.0
freopen-Inv name modes s w r w' (inr e) = Errno-Inv w w' e.0

freed_file-Inv : (w : World) (f : Option ℕ) → Inv w → Inv (freed_file w f)
freed_file-Inv w none inv = inv
freed_file-Inv w (some f) inv = freed-Inv w f inv

fclose-Inv :
    (sys : Headers) (s : Ptr) (w : World) (r : ℤ) (w' : World)
    → (fclose sys s).ensures w r w'
    → Inv w
    → Inv w'
unfolding fclose
fclose-Inv sys s w r w' (inl e) inv =
    rw e.0 (freed_file-Inv (freed w (base s)) _ (freed-Inv w (base s) inv))
fclose-Inv sys s w r w' (inr e) inv = Errno-Inv w w' e.0 inv

pclose-Inv : (s : Ptr) (w : World) (r : ℤ) (w' : World) → (pclose s).ensures w r w' → Inv w → Inv w'
unfolding pclose
pclose-Inv s w r w' (w1, e, same) inv = rw same (freed-Inv w1 (base s) (Errno-Inv w w1 e inv))

fflush-Inv :
    (sys : Headers) (s : Ptr) (w : World) (r : ℤ) (w' : World)
    → (fflush sys s).ensures w r w'
    → Inv w
    → Inv w'
unfolding fflush
fflush-Inv sys s w r w' (inl e) = same-Inv w w' e.0
fflush-Inv sys s w r w' (inr e) = Errno-Inv w w' e.0

module _ (sys : Headers) where
  pub Step-Inv : (w w' : World) → Step sys w w' → Inv w → Inv w'
  unfolding fopen tmpfile fmemopen popen dup3 fileno
  Step-Inv w w' (call_malloc n (_, (r, e))) = malloc-Inv n w r w' e
  Step-Inv w w' (call_calloc n k (_, (r, e))) = calloc-Inv n k w r w' e
  Step-Inv w w' (call_realloc p n (_, (r, e))) = realloc-Inv p n w r w' e
  Step-Inv w w' (call_free p (_, (r, e))) = free-Inv p w r w' e
  Step-Inv w w' (call_valloc n (_, (r, e))) = valloc-Inv n w r w' e
  Step-Inv w w' (call_open name (_, (r, e))) = open_file-Inv name w r w' e
  Step-Inv w w' (call_creat name (_, (r, e))) = creat-Inv name w r w' e
  Step-Inv w w' (call_close fd (_, (r, e))) = close-Inv fd w r w' e
  Step-Inv w w' (call_dup fd (req, (r, e))) = dup-Inv fd w r w' req e
  Step-Inv w w' (call_dup2 fd fd2 (_, (r, e))) = dup2-Inv fd fd2 w r w' e
  Step-Inv w w' (call_dup3 fd fd2 (_, (r, e))) = dup2-Inv fd fd2 w r w' e
  Step-Inv w w' (call_read fd p n (_, (r, e))) = read-Inv fd p n w r w' e
  Step-Inv w w' (call_write fd p n (_, (r, e))) = write-Inv fd p n w r w' e
  Step-Inv w w' (call_lseek fd whence (_, (r, e))) = lseek-Inv fd whence w r w' e
  Step-Inv w w' (call_fopen name modes (_, (r, e))) = OpensOrFails-Inv sys w r w' e
  Step-Inv w w' (call_freopen name modes s (_, (r, e))) = freopen-Inv name modes s w r w' e
  Step-Inv w w' (call_fdopen fd modes (_, (r, e))) = fdopen-Inv sys fd modes w r w' e
  Step-Inv w w' (call_tmpfile (_, (r, e))) = OpensOrFails-Inv sys w r w' e
  Step-Inv w w' (call_fmemopen p n modes (_, (r, e))) = OpensOrFails-Inv sys w r w' e
  Step-Inv w w' (call_popen command modes (_, (r, e))) = OpensOrFails-Inv sys w r w' e
  Step-Inv w w' (call_fclose s (_, (r, e))) = fclose-Inv sys s w r w' e
  Step-Inv w w' (call_pclose s (_, (r, e))) = pclose-Inv s w r w' e
  Step-Inv w w' (call_fflush s (_, (r, e))) = fflush-Inv sys s w r w' e
  Step-Inv w w' (call_fileno s (_, (r, e))) = same-Inv w w' e.0

  -- If every descriptor in the table stands for a FileRes resource that is alive, then so it is
  -- after any sequence of calls of malloc, calloc, realloc, free, valloc, open, creat, close, dup,
  -- dup2, dup3, read, write, lseek, fopen, freopen, fdopen, tmpfile, fmemopen, popen, fclose,
  -- pclose, fflush and fileno whose requirements hold, with any outcomes that their contracts
  -- allow.
  pub Reach-Inv : (w w' : World) → Reach sys w w' → Inv w → Inv w'
  Reach-Inv w _ stop inv = inv
  Reach-Inv w w' (after {w1} path step) inv = Step-Inv w1 w' step (Reach-Inv w w1 path inv)
