-- ===== src/System/Invariant/Files.antt =====
-- The invariant over the stubs of fcntl.c and unistd.c.
use mopsa_ocaml.Prelude.{ℕ, ℤ, inl, inr}
use mopsa_ocaml.Stub.Memory.{Ptr}
use mopsa_ocaml.Stub.Contract.{Assigns}
use mopsa_ocaml.System.World.{World, file_res}
use mopsa_ocaml.System.Descriptors.{open_file, creat, close, dup, dup2, read, write, lseek}
use mopsa_ocaml.System.Invariant.{Inv, OnMemory-Inv, new-Inv, registered-Inv, freed-Inv}
use mopsa_ocaml.System.Invariant.Outcomes.{
  Errno-Inv, same-Inv, new-Opened, Opens-Inv, kept-Opened, RegistersAt-Inv,
}

pub open_file-Inv :
    (name : Ptr) (w : World) (r : ℤ) (w' : World) → (open_file name).ensures w r w' → Inv w → Inv w'
unfolding open_file
open_file-Inv name w r w' (inl e) = Opens-Inv w r w' e
open_file-Inv name w r w' (inr e) = Errno-Inv w w' e.0

pub creat-Inv :
    (name : Ptr) (w : World) (r : ℤ) (w' : World) → (creat name).ensures w r w' → Inv w → Inv w'
unfolding creat
creat-Inv name w r w' (inl e) = Opens-Inv w r w' e
creat-Inv name w r w' (inr e) = Errno-Inv w w' e.0

pub close-Inv :
    (fd : ℤ) (w : World) (r : ℤ) (w' : World) → (close fd).ensures w r w' → Inv w → Inv w'
unfolding close
close-Inv fd w r w' (inl ((f, _, e), _)) inv = rw e (freed-Inv w f inv)
close-Inv fd w r w' (inr e) inv = Errno-Inv w w' e.0 inv

pub dup-Inv :
    (fd : ℤ) (w : World) (r : ℤ) (w' : World)
    → (dup fd).requires w
    → (dup fd).ensures w r w'
    → Inv w
    → Inv w'
unfolding dup
dup-Inv fd w r w' req (inl (f, f2, w1, found, new, e, _)) inv = rw e (
    registered-Inv w1 f (kept-Opened fd f f2 w w1 req found new) (new-Inv file_res f2 w w1 new inv))
dup-Inv fd w r w' req (inr e) inv = Errno-Inv w w' e.0 inv

pub dup2-Inv :
    (fd fd2 : ℤ) (w : World) (r : ℤ) (w' : World) → (dup2 fd fd2).ensures w r w' → Inv w → Inv w'
unfolding dup2
dup2-Inv fd fd2 w r w' (inl (_, (f, w1, new, e), _)) inv =
    RegistersAt-Inv fd2 f w1 w' e (new-Opened f w w1 new) (new-Inv file_res f w w1 new inv)
dup2-Inv fd fd2 w r w' (inr (inl e)) inv = same-Inv w w' e.1 inv
dup2-Inv fd fd2 w r w' (inr (inr e)) inv = Errno-Inv w w' e.0 inv

pub read-Inv :
    (fd : ℤ) (p : Ptr) (n : ℕ) (w : World) (r : ℤ) (w' : World)
    → (read fd p n).ensures w r w'
    → Inv w
    → Inv w'
unfolding read
read-Inv fd p n w r w' (inl e) = OnMemory-Inv w w' (Assigns p n) (λ m m' a. a.same_alive) e.0
read-Inv fd p n w r w' (inr e) = Errno-Inv w w' e.0

pub write-Inv :
    (fd : ℤ) (p : Ptr) (n : ℕ) (w : World) (r : ℤ) (w' : World)
    → (write fd p n).ensures w r w'
    → Inv w
    → Inv w'
unfolding write
write-Inv fd p n w r w' (inl e) = same-Inv w w' e.0
write-Inv fd p n w r w' (inr e) = Errno-Inv w w' e.0

pub lseek-Inv :
    (fd whence : ℤ) (w : World) (r : ℤ) (w' : World)
    → (lseek fd whence).ensures w r w'
    → Inv w
    → Inv w'
unfolding lseek
lseek-Inv fd whence w r w' (inl e) = same-Inv w w' e.0
lseek-Inv fd whence w r w' (inr e) = Errno-Inv w w' e.0
