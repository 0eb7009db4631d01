-- ===== src/System/Files.antt =====
-- The stubs of fcntl.c and unistd.c on paths and on open descriptors. Arguments that a contract does
-- not read, such as flags and offsets, are left out.
use mathlib.Core.Path.{◌≡◌}
use mopsa_ocaml.Prelude.{ℕ, ℤ, pos, ◌≤◌, ◌≢◌, ◌⊎◌}
use mopsa_ocaml.Stub.Memory.{Ptr, ValidBytes, ValidString, ValidSubstring}
use mopsa_ocaml.Stub.Contract.{Assigns}
use mopsa_ocaml.System.World.{
  Headers, Stub, NonNeg, UpTo, OnMemory, Errno, Fails, Status, IsOpen, AtOrOpen,
}

unfoldable pub access : Ptr → ℤ → Stub ℤ
access name type = record {
  requires = λ w. ValidString w.memory name × NonNeg type;
  ensures = λ w r w'. Status w r w';
}

unfoldable pub euidaccess : Ptr → ℤ → Stub ℤ
euidaccess name type = record {
  requires = λ w. ValidString w.memory name × NonNeg type;
  ensures = λ w r w'. Status w r w';
}

unfoldable pub eaccess : Ptr → ℤ → Stub ℤ
eaccess name type = record {
  requires = λ w. ValidString w.memory name × NonNeg type;
  ensures = λ w r w'. Status w r w';
}

unfoldable pub chown : Ptr → ℤ → ℤ → Stub ℤ
chown file owner group = record {
  requires = λ w. ValidString w.memory file × NonNeg owner × NonNeg group;
  ensures = λ w r w'. Status w r w';
}

unfoldable pub fchown : ℤ → ℤ → ℤ → Stub ℤ
fchown fd owner group = record {
  requires = λ w. IsOpen w fd × NonNeg owner × NonNeg group;
  ensures = λ w r w'. Status w r w';
}

unfoldable pub lchown : Ptr → ℤ → ℤ → Stub ℤ
lchown file owner group = record {
  requires = λ w. NonNeg owner × NonNeg group × ValidString w.memory file;
  ensures = λ w r w'. Status w r w';
}

unfoldable pub chdir : Ptr → Stub ℤ
chdir path = record { requires = λ w. ValidString w.memory path; ensures = λ w r w'. Status w r w' }

unfoldable pub fchdir : ℤ → Stub ℤ
fchdir fd = record { requires = λ w. IsOpen w fd; ensures = λ w r w'. Status w r w' }

unfoldable pub link : Ptr → Ptr → Stub ℤ
link from to = record {
  requires = λ w. ValidString w.memory from × ValidString w.memory to;
  ensures = λ w r w'. Status w r w';
}

unfoldable pub symlink : Ptr → Ptr → Stub ℤ
symlink from to = record {
  requires = λ w. ValidString w.memory from × ValidString w.memory to;
  ensures = λ w r w'. Status w r w';
}

unfoldable pub readlink : Ptr → Ptr → ℕ → Stub ℤ
readlink path buf len = record {
  requires = λ w. ValidString w.memory path × ValidBytes w.memory buf len;
  ensures = λ w r w'. (OnMemory (Assigns buf len) w w' × UpTo len r) ⊎ Fails w r w';
}

unfoldable pub unlink : Ptr → Stub ℤ
unlink name = record {
  requires = λ w. ValidString w.memory name;
  ensures = λ w r w'. Status w r w';
}

unfoldable pub rmdir : Ptr → Stub ℤ
rmdir path = record { requires = λ w. ValidString w.memory path; ensures = λ w r w'. Status w r w' }

unfoldable pub truncate : Ptr → Stub ℤ
truncate file = record {
  requires = λ w. ValidString w.memory file;
  ensures = λ w r w'. Status w r w';
}

unfoldable pub ftruncate : ℤ → Stub ℤ
ftruncate fd = record { requires = λ w. IsOpen w fd; ensures = λ w r w'. Status w r w' }

unfoldable pub fsync : ℤ → Stub ℤ
fsync fd = record { requires = λ w. IsOpen w fd; ensures = λ w r w'. Status w r w' }

unfoldable pub syncfs : ℤ → Stub ℤ
syncfs fd = record { requires = λ w. IsOpen w fd; ensures = λ w r w'. Status w r w' }

unfoldable pub fdatasync : ℤ → Stub ℤ
fdatasync fd = record { requires = λ w. IsOpen w fd; ensures = λ w r w'. Status w r w' }

unfoldable pub lockf : ℤ → ℤ → Stub ℤ
lockf fd cmd = record {
  requires = λ w. IsOpen w fd × UpTo 3 cmd;
  ensures = λ w r w'. Status w r w';
}

unfoldable pub isatty : ℤ → Stub ℤ
isatty fd = record {
  requires = λ w. IsOpen w fd;
  ensures = λ w r w'. ((w' ≡ w) × (r ≡ pos 1)) ⊎ (Errno w w' × (r ≡ pos 0));
}

unfoldable pub ttyname_r : ℤ → Ptr → ℕ → Stub ℤ
ttyname_r fd buf buflen = record {
  requires = λ w. IsOpen w fd × ValidBytes w.memory buf buflen;
  ensures = λ w r w'.
      (OnMemory (Assigns buf buflen) w w' × ValidSubstring w'.memory buf buflen × (r ≡ pos 0))
      ⊎ (Errno w w' × (r ≢ pos 0));
}

unfoldable pub pathconf : Ptr → Stub ℤ
pathconf path = record {
  requires = λ w. ValidString w.memory path;
  ensures = λ w r w'. (w' ≡ w) ⊎ Fails w r w';
}

unfoldable pub fpathconf : ℤ → Stub ℤ
fpathconf fd = record { requires = λ w. IsOpen w fd; ensures = λ w r w'. (w' ≡ w) ⊎ Fails w r w' }

unfoldable pub acct : Ptr → Stub ℤ
acct name = record { requires = λ w. ValidString w.memory name; ensures = λ w r w'. Status w r w' }

unfoldable pub chroot : Ptr → Stub ℤ
chroot path = record {
  requires = λ w. ValidString w.memory path;
  ensures = λ w r w'. Status w r w';
}

unfoldable pub tcgetpgrp : ℤ → Stub ℤ
tcgetpgrp fd = record {
  requires = λ w. IsOpen w fd;
  ensures = λ w r w'. ((w' ≡ w) × NonNeg r) ⊎ Fails w r w';
}

unfoldable pub tcsetpgrp : ℤ → ℤ → Stub ℤ
tcsetpgrp fd pgrp_id = record {
  requires = λ w. IsOpen w fd × NonNeg pgrp_id;
  ensures = λ w r w'. Status w r w';
}

unfoldable pub gethostname : Ptr → ℕ → Stub ℤ
gethostname name len = record {
  requires = λ w. ValidBytes w.memory name len;
  ensures = λ w r w'. (OnMemory (Assigns name len) w w' × (r ≡ pos 0)) ⊎ Fails w r w';
}

unfoldable pub sethostname : Ptr → ℕ → Stub ℤ
sethostname name len = record {
  requires = λ w. ValidBytes w.memory name len;
  ensures = λ w r w'. Status w r w';
}

unfoldable pub getdomainname : Ptr → ℕ → Stub ℤ
getdomainname buf buflen = record {
  requires = λ w. ValidBytes w.memory buf buflen;
  ensures = λ w r w'. (OnMemory (Assigns buf buflen) w w' × (r ≡ pos 0)) ⊎ Fails w r w';
}

unfoldable pub setdomainname : Ptr → ℕ → Stub ℤ
setdomainname name len = record {
  requires = λ w. ValidBytes w.memory name len;
  ensures = λ w r w'. Status w r w';
}

unfoldable pub getlogin_r : Ptr → ℕ → Stub ℤ
getlogin_r buf buflen = record {
  requires = λ w. ValidBytes w.memory buf buflen;
  ensures = λ w r w'.
      (OnMemory (Assigns buf buflen) w w' × ValidSubstring w'.memory buf buflen × (r ≡ pos 0))
      ⊎ Fails w r w';
}

unfoldable pub setlogin : Ptr → Stub ℤ
setlogin name = record {
  requires = λ w. ValidString w.memory name;
  ensures = λ w r w'. Status w r w';
}

unfoldable pub getentropy : Ptr → ℕ → Stub ℤ
getentropy buffer length = record {
  requires = λ w. (length ≤ 256) × ValidBytes w.memory buffer length;
  ensures = λ w r w'. (OnMemory (Assigns buffer length) w w' × (r ≡ pos 0)) ⊎ Fails w r w';
}

unfoldable pub posix_fadvise : ℤ → Stub ℤ
posix_fadvise fd = record { requires = λ w. IsOpen w fd; ensures = λ w r w'. w' ≡ w }

unfoldable pub posix_fallocate : ℤ → Stub ℤ
posix_fallocate fd = record { requires = λ w. IsOpen w fd; ensures = λ w r w'. w' ≡ w }

unfoldable pub fcntl : ℤ → Stub ℤ
fcntl fd = record { requires = λ w. IsOpen w fd; ensures = λ w r w'. w' ≡ w }

-- Paths from a descriptor, or from the current directory.
module _ (sys : Headers) where
  unfoldable pub faccessat : ℤ → Ptr → Stub ℤ
  faccessat fd file = record {
    requires = λ w. ValidString w.memory file × AtOrOpen sys w fd;
    ensures = λ w r w'. Status w r w';
  }

  unfoldable pub fchownat : ℤ → Ptr → ℤ → ℤ → Stub ℤ
  fchownat fd file owner group = record {
    requires = λ w. ValidString w.memory file × NonNeg owner × NonNeg group × AtOrOpen sys w fd;
    ensures = λ w r w'. Status w r w';
  }

  unfoldable pub linkat : ℤ → Ptr → ℤ → Ptr → Stub ℤ
  linkat fromfd from tofd to = record {
    requires = λ w.
        ValidString w.memory from
        × ValidString w.memory to
        × AtOrOpen sys w fromfd
        × AtOrOpen sys w tofd;
    ensures = λ w r w'. Status w r w';
  }

  unfoldable pub symlinkat : Ptr → ℤ → Ptr → Stub ℤ
  symlinkat from tofd to = record {
    requires = λ w. ValidString w.memory from × ValidString w.memory to × AtOrOpen sys w tofd;
    ensures = λ w r w'. Status w r w';
  }

  unfoldable pub readlinkat : ℤ → Ptr → Ptr → ℕ → Stub ℤ
  readlinkat fd path buf len = record {
    requires = λ w. ValidString w.memory path × ValidBytes w.memory buf len × AtOrOpen sys w fd;
    ensures = λ w r w'. (OnMemory (Assigns buf len) w w' × UpTo len r) ⊎ Fails w r w';
  }

  unfoldable pub unlinkat : ℤ → Ptr → Stub ℤ
  unlinkat fd name = record {
    requires = λ w. ValidString w.memory name × AtOrOpen sys w fd;
    ensures = λ w r w'. Status w r w';
  }
