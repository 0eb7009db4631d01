-- ===== src/System/FileStatus.antt =====
-- The stubs of share/mopsa/stubs/c/libc/sys/stat.c. Modes, flags and device numbers are not read.
-- umask and getumask, which have no contract, are left out.
use mathlib.Core.Path.{◌≡◌}
use mopsa_ocaml.Prelude.{ℕ, ℤ, pos, ◌≢◌, ◌⊎◌, ◌*◌, ◌<◌}
use mopsa_ocaml.Stub.Memory.{Ptr, null, shift, ValidBlock, ValidString}
use mopsa_ocaml.Stub.Contract.{Assigns}
use mopsa_ocaml.System.World.{Headers, World, Stub, OnMemory, Fails, Status, IsOpen, AtOrOpen}

-- Contracts that only read a path or a descriptor.
unfoldable pub chmod : Ptr → Stub ℤ
chmod file = record { requires = λ w. ValidString w.memory file; ensures = Status }

unfoldable pub mkdir : Ptr → Stub ℤ
mkdir path = record { requires = λ w. ValidString w.memory path; ensures = Status }

unfoldable pub mknod : Ptr → Stub ℤ
mknod path = record { requires = λ w. ValidString w.memory path; ensures = Status }

unfoldable pub mkfifo : Ptr → Stub ℤ
mkfifo path = record { requires = λ w. ValidString w.memory path; ensures = Status }

-- An alias.
unfoldable pub lchmod : Ptr → Stub ℤ
lchmod = chmod

unfoldable pub fchmod : ℤ → Stub ℤ
fchmod fd = record { requires = λ w. IsOpen w fd; ensures = Status }

module _ (sys : Headers) where
  unfoldable pub fchmodat : ℤ → Ptr → Stub ℤ
  fchmodat fd file = record {
    requires = λ w. ValidString w.memory file × AtOrOpen sys w fd;
    ensures = Status;
  }

  unfoldable pub mkdirat : ℤ → Ptr → Stub ℤ
  mkdirat fd path = record {
    requires = λ w. ValidString w.memory path × AtOrOpen sys w fd;
    ensures = Status;
  }

  unfoldable pub mknodat : ℤ → Ptr → Stub ℤ
  mknodat fd path = record {
    requires = λ w. ValidString w.memory path × AtOrOpen sys w fd;
    ensures = Status;
  }

  unfoldable pub mkfifoat : ℤ → Ptr → Stub ℤ
  mkfifoat fd path = record {
    requires = λ w. ValidString w.memory path × AtOrOpen sys w fd;
    ensures = Status;
  }

-- `stat_size` is the size of `struct stat`.
module _ (stat_size : ℕ) where
  -- The cases "success", in which the buffer is filled, and "failure".
  abbrev pub FillsStat : Ptr → World → ℤ → World → Type 0
  FillsStat buf w r w' = (OnMemory (Assigns buf stat_size) w w' × (r ≡ pos 0)) ⊎ Fails w r w'

  unfoldable pub stat : Ptr → Ptr → Stub ℤ
  stat file buf = record {
    requires = λ w. ValidString w.memory file × ValidBlock w.memory buf stat_size;
    ensures = FillsStat buf;
  }

  -- An alias.
  unfoldable pub lstat : Ptr → Ptr → Stub ℤ
  lstat = stat

  unfoldable pub fstat : ℤ → Ptr → Stub ℤ
  fstat fd buf = record {
    requires = λ w. IsOpen w fd × ValidBlock w.memory buf stat_size;
    ensures = FillsStat buf;
  }

  unfoldable pub fstatat : Headers → ℤ → Ptr → Ptr → Stub ℤ
  fstatat sys fd file buf = record {
    requires =
        λ w. ValidString w.memory file × ValidBlock w.memory buf stat_size × AtOrOpen sys w fd;
    ensures = FillsStat buf;
  }

-- `timespec_size` is the size of `struct timespec`.
module _ (timespec_size : ℕ) where
  -- `times != NULL implies valid_ptr_range(times, 0, 1)`.
  abbrev pub ValidTimes : World → Ptr → Type 0
  ValidTimes w times =
      times ≢ null
      → (k : ℕ) → k < 2
      → ValidBlock w.memory (shift times (k * timespec_size)) timespec_size

  unfoldable pub utimensat : Headers → ℤ → Ptr → Ptr → Stub ℤ
  utimensat sys fd path times = record {
    requires = λ w. ValidString w.memory path × ValidTimes w times × AtOrOpen sys w fd;
    ensures = Status;
  }

  unfoldable pub futimens : ℤ → Ptr → Stub ℤ
  futimens fd times = record { requires = λ w. IsOpen w fd × ValidTimes w times; ensures = Status }
