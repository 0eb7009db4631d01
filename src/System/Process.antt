-- ===== src/System/Process.antt =====
-- The stubs of unistd.c on processes, users and groups. Arguments that a contract does not read are
-- left out.
use mathlib.Core.Path.{◌≡◌}
use mopsa_ocaml.Prelude.{ℕ, ℤ, pos, suc, ◌⊎◌}
use mopsa_ocaml.System.World.{Stub, NonNeg, UpTo, Fails, Status}

unfoldable pub getpid : Stub ℤ
getpid = record { requires = λ w. Unit; ensures = λ w r w'. (w' ≡ w) × NonNeg r }

unfoldable pub getppid : Stub ℤ
getppid = record { requires = λ w. Unit; ensures = λ w r w'. (w' ≡ w) × NonNeg r }

unfoldable pub getpgrp : Stub ℤ
getpgrp = record { requires = λ w. Unit; ensures = λ w r w'. (w' ≡ w) × NonNeg r }

unfoldable pub getuid : Stub ℤ
getuid = record { requires = λ w. Unit; ensures = λ w r w'. (w' ≡ w) × NonNeg r }

unfoldable pub geteuid : Stub ℤ
geteuid = record { requires = λ w. Unit; ensures = λ w r w'. (w' ≡ w) × NonNeg r }

unfoldable pub getgid : Stub ℤ
getgid = record { requires = λ w. Unit; ensures = λ w r w'. (w' ≡ w) × NonNeg r }

unfoldable pub getegid : Stub ℤ
getegid = record { requires = λ w. Unit; ensures = λ w r w'. (w' ≡ w) × NonNeg r }

unfoldable pub getpgid : ℤ → Stub ℤ
getpgid pid = record { requires = λ w. NonNeg pid; ensures = λ w r w'. (w' ≡ w) × NonNeg r }

unfoldable pub setpgid : ℤ → ℤ → Stub ℤ
setpgid pid pgid = record {
  requires = λ w. NonNeg pid × NonNeg pgid;
  ensures = λ w r w'. Status w r w';
}

unfoldable pub setpgrp : Stub ℤ
setpgrp = record { requires = λ w. Unit; ensures = λ w r w'. Status w r w' }

unfoldable pub setsid : Stub ℤ
setsid = record { requires = λ w. Unit; ensures = λ w r w'. ((w' ≡ w) × NonNeg r) ⊎ Fails w r w' }

unfoldable pub getsid : ℤ → Stub ℤ
getsid pid = record {
  requires = λ w. NonNeg pid;
  ensures = λ w r w'. ((w' ≡ w) × NonNeg r) ⊎ Fails w r w';
}

unfoldable pub group_member : ℤ → Stub ℤ
group_member gid = record { requires = λ w. NonNeg gid; ensures = λ w r w'. w' ≡ w }

unfoldable pub setuid : ℤ → Stub ℤ
setuid uid = record { requires = λ w. NonNeg uid; ensures = λ w r w'. Status w r w' }

unfoldable pub setreuid : ℤ → ℤ → Stub ℤ
setreuid ruid euid = record {
  requires = λ w. NonNeg ruid × NonNeg euid;
  ensures = λ w r w'. Status w r w';
}

unfoldable pub seteuid : ℤ → Stub ℤ
seteuid uid = record { requires = λ w. NonNeg uid; ensures = λ w r w'. Status w r w' }

unfoldable pub setgid : ℤ → Stub ℤ
setgid gid = record { requires = λ w. NonNeg gid; ensures = λ w r w'. Status w r w' }

unfoldable pub setregid : ℤ → ℤ → Stub ℤ
setregid rgid egid = record {
  requires = λ w. NonNeg rgid × NonNeg egid;
  ensures = λ w r w'. Status w r w';
}

unfoldable pub setegid : ℤ → Stub ℤ
setegid gid = record { requires = λ w. NonNeg gid; ensures = λ w r w'. Status w r w' }

unfoldable pub setresuid : ℤ → ℤ → ℤ → Stub ℤ
setresuid ruid euid suid = record {
  requires = λ w. NonNeg ruid × NonNeg euid × NonNeg suid;
  ensures = λ w r w'. Status w r w';
}

unfoldable pub setresgid : ℤ → ℤ → ℤ → Stub ℤ
setresgid rgid egid sgid = record {
  requires = λ w. NonNeg rgid × NonNeg egid × NonNeg sgid;
  ensures = λ w r w'. Status w r w';
}

unfoldable pub fork : Stub ℤ
fork = record { requires = λ w. Unit; ensures = λ w r w'. ((w' ≡ w) × NonNeg r) ⊎ Fails w r w' }

unfoldable pub nice : Stub ℤ
nice = record { requires = λ w. Unit; ensures = λ w r w'. (w' ≡ w) ⊎ Fails w r w' }

unfoldable pub sysconf : Stub ℤ
sysconf = record { requires = λ w. Unit; ensures = λ w r w'. (w' ≡ w) ⊎ Fails w r w' }

unfoldable pub sleep : ℕ → Stub ℤ
sleep seconds = record { requires = λ w. Unit; ensures = λ w r w'. (w' ≡ w) × UpTo seconds r }

unfoldable pub usleep : Stub ℤ
usleep = record { requires = λ w. Unit; ensures = λ w r w'. Status w r w' }

-- It waits for a signal, so it always fails.
unfoldable pub pause : Stub ℤ
pause = record { requires = λ w. Unit; ensures = λ w r w'. Fails w r w' }

unfoldable pub sethostid : Stub ℤ
sethostid = record { requires = λ w. Unit; ensures = λ w r w'. Status w r w' }

unfoldable pub vhangup : Stub ℤ
vhangup = record { requires = λ w. Unit; ensures = λ w r w'. Status w r w' }

unfoldable pub getpagesize : Stub ℤ
getpagesize = record {
  requires = λ w. Unit;
  ensures = λ w r w'. (w' ≡ w) × ((n : ℕ) × (r ≡ pos (suc n)));
}

unfoldable pub getdtablesize : Stub ℤ
getdtablesize = record {
  requires = λ w. Unit;
  ensures = λ w r w'. (w' ≡ w) × ((n : ℕ) × (r ≡ pos (suc n)));
}

-- _exit does not return.
unfoldable pub exit_now : Stub ℤ
exit_now = record { requires = λ w. Unit; ensures = λ w r w'. ⊥ }
