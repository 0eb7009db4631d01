-- ===== src/System/Steps.antt =====
-- Calls of the stubs that change memory blocks, streams and descriptors, one after the other.
use mopsa_ocaml.Prelude.{ℕ, ℤ}
use mopsa_ocaml.Stub.Memory.{Ptr}
use mopsa_ocaml.System.World.{World, Headers, Stub}
use mopsa_ocaml.System.Heap.{malloc, calloc, realloc, free, valloc}
use mopsa_ocaml.System.Descriptors.{open_file, creat, close, dup, dup2, dup3, read, write, lseek}
use mopsa_ocaml.System.Streams.{
  fopen, freopen, fdopen, tmpfile, fmemopen, popen, fclose, pclose, fflush, fileno,
}

-- A call whose requirements hold, with one of the outcomes that its contract allows.
abbrev pub Call : {R : Type 0} → Stub R → World → World → Type 0
Call {R} s w w' = s.requires w × ((r : R) × s.ensures w r w')

module _ (sys : Headers) where
  pub data Step (w w' : World) : Type 0 where
    call_malloc : (size : ℕ) → Call (malloc size) w w' → Step w w'
    call_calloc : (n size : ℕ) → Call (calloc n size) w w' → Step w w'
    call_realloc : (p : Ptr) (size : ℕ) → Call (realloc p size) w w' → Step w w'
    call_free : (p : Ptr) → Call (free p) w w' → Step w w'
    call_valloc : (size : ℕ) → Call (valloc size) w w' → Step w w'
    call_open : (name : Ptr) → Call (open_file name) w w' → Step w w'
    call_creat : (name : Ptr) → Call (creat name) w w' → Step w w'
    call_close : (fd : ℤ) → Call (close fd) w w' → Step w w'
    call_dup : (fd : ℤ) → Call (dup fd) w w' → Step w w'
    call_dup2 : (fd fd2 : ℤ) → Call (dup2 fd fd2) w w' → Step w w'
    call_dup3 : (fd fd2 : ℤ) → Call (dup3 fd fd2) w w' → Step w w'
    call_read : (fd : ℤ) (buf : Ptr) (n : ℕ) → Call (read fd buf n) w w' → Step w w'
    call_write : (fd : ℤ) (buf : Ptr) (n : ℕ) → Call (write fd buf n) w w' → Step w w'
    call_lseek : (fd whence : ℤ) → Call (lseek fd whence) w w' → Step w w'
    call_fopen : (name modes : Ptr) → Call (fopen sys name modes) w w' → Step w w'
    call_freopen : (name modes s : Ptr) → Call (freopen name modes s) w w' → Step w w'
    call_fdopen : (fd : ℕ) (modes : Ptr) → Call (fdopen sys fd modes) w w' → Step w w'
    call_tmpfile : Call (tmpfile sys) w w' → Step w w'
    call_fmemopen : (p : Ptr) (n : ℕ) (modes : Ptr) → Call (fmemopen sys p n modes) w w' → Step w w'
    call_popen : (command modes : Ptr) → Call (popen sys command modes) w w' → Step w w'
    call_fclose : (s : Ptr) → Call (fclose sys s) w w' → Step w w'
    call_pclose : (s : Ptr) → Call (pclose s) w w' → Step w w'
    call_fflush : (s : Ptr) → Call (fflush sys s) w w' → Step w w'
    call_fileno : (s : Ptr) → Call (fileno s) w w' → Step w w'

  -- The worlds that calls lead to.
  pub data Reach (w : World) : World → Type 0 where
    stop : Reach w w
    after : {w1 w2 : World} → Reach w w1 → Step w1 w2 → Reach w w2
