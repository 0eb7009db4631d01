-- ===== src/System/Terminals.antt =====
-- The pseudo-terminals of share/mopsa/stubs/c/libc/stdlib.c, but ptsname, which returns a buffer of its
-- own, and the stubs of termios.c on descriptors, but tcgetattr, which assigns its pointer argument.
use mathlib.Core.Path.{◌≡◌}
use mopsa_ocaml.Prelude.{ℕ, ℤ, pos, ◌≢◌, ◌⊎◌}
use mopsa_ocaml.Stub.Memory.{Ptr, ValidBlock, ValidBytes, ValidSubstring}
use mopsa_ocaml.Stub.Contract.{Assigns}
use mopsa_ocaml.System.World.{Stub, NonNeg, OnMemory, Errno, Fails, Status, IsOpen}
use mopsa_ocaml.System.Descriptors.{Opens}

-- The flags are not read.
unfoldable pub posix_openpt : Stub ℤ
posix_openpt = record { requires = λ w. Unit; ensures = λ w r w'. Opens w r w' ⊎ Fails w r w' }

unfoldable pub getpt : Stub ℤ
getpt = record { requires = λ w. Unit; ensures = λ w r w'. Opens w r w' ⊎ Fails w r w' }

unfoldable pub grantpt : ℤ → Stub ℤ
grantpt fd = record { requires = λ w. IsOpen w fd; ensures = Status }

unfoldable pub unlockpt : ℤ → Stub ℤ
unlockpt fd = record { requires = λ w. IsOpen w fd; ensures = Status }

unfoldable pub ptsname_r : ℤ → Ptr → ℕ → Stub ℤ
ptsname_r fd buf buflen = record {
  requires = λ w. IsOpen w fd × ValidBytes w.memory buf buflen;
  ensures = λ w r w'.
      (OnMemory (Assigns buf buflen) w w' × ValidSubstring w'.memory buf buflen × (r ≡ pos 0))
      ⊎ (Errno w w' × (r ≢ pos 0));
}

unfoldable pub tcsendbreak : ℤ → Stub ℤ
tcsendbreak fd = record { requires = λ w. IsOpen w fd; ensures = Status }

unfoldable pub tcdrain : ℤ → Stub ℤ
tcdrain fd = record { requires = λ w. IsOpen w fd; ensures = Status }

unfoldable pub tcflush : ℤ → Stub ℤ
tcflush fd = record { requires = λ w. IsOpen w fd; ensures = Status }

unfoldable pub tcflow : ℤ → Stub ℤ
tcflow fd = record { requires = λ w. IsOpen w fd; ensures = Status }

unfoldable pub tcgetsid : ℤ → Stub ℤ
tcgetsid fd = record {
  requires = λ w. IsOpen w fd;
  ensures = λ w r w'. ((w' ≡ w) × NonNeg r) ⊎ Fails w r w';
}

-- `size` is that of `struct termios`.
unfoldable pub tcsetattr : ℕ → ℤ → Ptr → Stub ℤ
tcsetattr size fd termios = record {
  requires = λ w. IsOpen w fd × ValidBlock w.memory termios size;
  ensures = Status;
}
