-- ===== src/System/Descriptors.antt =====
-- The stubs of fcntl.c and unistd.c that open, close and copy file descriptors.
use mathlib.Core.Path.{◌≡◌}
use mopsa_ocaml.Prelude.{ℕ, ℤ, pos, negsuc, ◌⊎◌, Option, none, some}
use mopsa_ocaml.Stub.Memory.{Ptr, ValidBytes, ValidString}
use mopsa_ocaml.Stub.Contract.{Assigns}
use mopsa_ocaml.System.World.{
  World, Stub, NonNeg, UpTo, file_res, OnMemory, Fails, find_file_resource, IsOpen, NewResource,
  registered, registered_at, smallest_free, freed,
}

-- `local: void* f = new FileRes; local: int fd = _mopsa_register_file_resource(f);`, and `fd` is
-- returned.
abbrev pub Opens : World → ℤ → World → Type 0
Opens w r w' =
    (f : ℕ) × (w1 : World) × NewResource file_res f w w1
    × (w' ≡ registered w1 f)
    × (r ≡ smallest_free w1 f)

unfoldable pub open_file : Ptr → Stub ℤ
open_file name = record {
  requires = λ w. ValidString w.memory name;
  ensures = λ w r w'. Opens w r w' ⊎ Fails w r w';
}

unfoldable pub creat : Ptr → Stub ℤ
creat name = record {
  requires = λ w. ValidString w.memory name;
  ensures = λ w r w'. Opens w r w' ⊎ Fails w r w';
}

-- The resource of an open descriptor is freed.
abbrev pub Closes : ℤ → World → World → Type 0
Closes fd w w' = (f : ℕ) × (find_file_resource w fd ≡ some f) × (w' ≡ freed w f)

unfoldable pub close : ℤ → Stub ℤ
close fd = record {
  requires = λ w. IsOpen w fd;
  ensures = λ w r w'. (Closes fd w w' × (r ≡ pos 0)) ⊎ Fails w r w';
}

-- The new resource `f2` is not the one that is registered.
unfoldable pub dup : ℤ → Stub ℤ
dup fd = record {
  requires = λ w. IsOpen w fd;
  ensures = λ w r w'.
      ((f f2 : ℕ) × (w1 : World) × (find_file_resource w fd ≡ some f)
        × NewResource file_res f2 w w1
        × (w' ≡ registered w1 f)
        × (r ≡ smallest_free w1 f))
      ⊎ Fails w r w';
}

-- `f in FileRes`, for a resource that may be null.
abbrev pub IsFileRes : World → Option ℕ → Type 0
IsFileRes w none = ⊥
IsFileRes w (some f) = w.kind f ≡ file_res

-- `_mopsa_register_file_resource_at(f, fd)`, which has no outcome for a negative descriptor.
abbrev pub RegistersAt : ℤ → ℕ → World → World → Type 0
RegistersAt (pos fd) f w w' = w' ≡ registered_at w f fd
RegistersAt (negsuc fd) f w w' = ⊥

unfoldable pub dup2 : ℤ → ℤ → Stub ℤ
dup2 fd fd2 = record {
  requires = λ w. IsOpen w fd;
  ensures = λ w r w'.
      (¬ IsFileRes w (find_file_resource w fd2)
        × ((f3 : ℕ) × (w1 : World) × NewResource file_res f3 w w1 × RegistersAt fd2 f3 w1 w')
        × (r ≡ fd2))
      ⊎ (IsFileRes w (find_file_resource w fd2) × (w' ≡ w) × (r ≡ fd2))
      ⊎ Fails w r w';
}

-- The flags are not read.
unfoldable pub dup3 : ℤ → ℤ → Stub ℤ
unfolding dup2
dup3 fd fd2 = dup2 fd fd2

unfoldable pub read : ℤ → Ptr → ℕ → Stub ℤ
read fd buf nbytes = record {
  requires = λ w. IsOpen w fd × ValidBytes w.memory buf nbytes;
  ensures = λ w r w'. (OnMemory (Assigns buf nbytes) w w' × UpTo nbytes r) ⊎ Fails w r w';
}

unfoldable pub write : ℤ → Ptr → ℕ → Stub ℤ
write fd buf n = record {
  requires = λ w. IsOpen w fd × ValidBytes w.memory buf n;
  ensures = λ w r w'. ((w' ≡ w) × UpTo n r) ⊎ Fails w r w';
}

-- The offset is not read.
unfoldable pub pread : ℤ → Ptr → ℕ → Stub ℤ
unfolding read
pread fd buf nbytes = read fd buf nbytes

unfoldable pub pwrite : ℤ → Ptr → ℕ → Stub ℤ
unfolding write
pwrite fd buf n = write fd buf n

unfoldable pub lseek : ℤ → ℤ → Stub ℤ
lseek fd whence = record {
  requires = λ w. IsOpen w fd × NonNeg whence;
  ensures = λ w r w'. ((w' ≡ w) × NonNeg r) ⊎ Fails w r w';
}
