-- ===== src/System/Sockets.antt =====
-- The stubs of share/mopsa/stubs/c/libc/sys/socket.c, but for those that read the length of an address
-- through a pointer (accept, recvfrom, getsockname, getpeername, getsockopt). Domains, types, protocols,
-- options and flags are not read.
use mathlib.Core.Path.{◌≡◌}
use mopsa_ocaml.Prelude.{ℕ, ℤ, pos, ◌⊎◌}
use mopsa_ocaml.Stub.Memory.{Ptr, ValidBytes}
use mopsa_ocaml.Stub.Contract.{Assigns}
use mopsa_ocaml.Stub.Wide.Chars.{wchar}
use mopsa_ocaml.System.World.{
  World, Stub, file_res, minus_one, UpTo, OnMemory, Errno, Fails, Status, IsOpen, NewResource,
  registered, smallest_free,
}
use mopsa_ocaml.System.Descriptors.{Opens}

unfoldable pub socket : Stub ℤ
socket = record { requires = λ w. Unit; ensures = λ w r w'. Opens w r w' ⊎ Fails w r w' }

-- Two resources are made and registered one after the other, and their descriptors, ints of four
-- bytes, are stored in `fds`.
abbrev pub OpensPair : Ptr → World → World → Type 0
OpensPair fds w w' =
    (f0 f1 : ℕ) × (w1 w2 : World) × NewResource file_res f0 w w1
    × NewResource file_res f1 w1 w2
    × OnMemory (Assigns fds 8) (registered (registered w2 f0) f1) w'
    × (wchar w'.memory fds 0 ≡ smallest_free w2 f0)
    × (wchar w'.memory fds 1 ≡ smallest_free (registered w2 f0) f1)

unfoldable pub socketpair : Ptr → Stub ℤ
socketpair fds = record {
  requires = λ w. Unit;
  ensures = λ w r w'. (OpensPair fds w w' × (r ≡ pos 0)) ⊎ Fails w r w';
}

unfoldable pub connect : ℤ → Ptr → ℕ → Stub ℤ
connect fd addr len = record {
  requires = λ w. IsOpen w fd × ValidBytes w.memory addr len;
  ensures = Status;
}

unfoldable pub bind : ℤ → Ptr → ℕ → Stub ℤ
bind fd addr len = record {
  requires = λ w. IsOpen w fd × ValidBytes w.memory addr len;
  ensures = Status;
}

unfoldable pub listen : ℤ → Stub ℤ
listen fd = record {
  requires = λ w. IsOpen w fd;
  ensures = λ w r w'. Errno w w' × ((r ≡ minus_one) ⊎ (r ≡ pos 0));
}

unfoldable pub recv : ℤ → Ptr → ℕ → Stub ℤ
recv fd buf n = record {
  requires = λ w. IsOpen w fd × ValidBytes w.memory buf n;
  ensures = λ w r w'. (OnMemory (Assigns buf n) w w' × UpTo n r) ⊎ Fails w r w';
}

unfoldable pub send : ℤ → Ptr → ℕ → Stub ℤ
send fd buf n = record {
  requires = λ w. IsOpen w fd × ValidBytes w.memory buf n;
  ensures = λ w r w'. ((w' ≡ w) × (r ≡ pos n)) ⊎ Fails w r w';
}

unfoldable pub sendto : ℤ → Ptr → ℕ → Ptr → ℕ → Stub ℤ
sendto fd buf n addr len = record {
  requires = λ w. (send fd buf n).requires w × ValidBytes w.memory addr len;
  ensures = (send fd buf n).ensures;
}

unfoldable pub setsockopt : ℤ → Ptr → ℕ → Stub ℤ
setsockopt fd optval len = record {
  requires = λ w. IsOpen w fd × ValidBytes w.memory optval len;
  ensures = Status;
}

unfoldable pub shutdown : ℤ → Stub ℤ
shutdown fd = record { requires = λ w. IsOpen w fd; ensures = Status }
