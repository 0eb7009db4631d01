-- ===== src/System/StreamIo.antt =====
-- The stubs of stdio.c on open streams. Arguments that a contract does not read are left out; the
-- formats of the v* functions are not checked there.
use mathlib.Core.Path.{◌≡◌}
use mopsa_ocaml.Prelude.{ℕ, ℤ, pos, negsuc, ◌-◌, ◌*◌, ◌≤◌, ◌≢◌, ◌⊎◌}
use Prim.Native.Nat.{◌%◌}
use mopsa_ocaml.Stub.Memory.{size_t, Ptr, null, ValidBytes, ValidString, ValidSubstring}
use mopsa_ocaml.Stub.Contract.{Assigns}
use mopsa_ocaml.System.World.{
  Headers, Stub, NonNeg, UpTo, OnMemory, Errno, Fails, Status, IsOpen, AtOrOpen,
}
use mopsa_ocaml.System.Streams.{IsStream}

-- `(unsigned char) c`.
abbrev pub to_uchar : ℤ → ℕ
to_uchar (pos n) = n % 256
to_uchar (negsuc n) = 255 - n % 256

unfoldable pub getw : Ptr → Stub ℤ
getw stream = record { requires = λ w. IsStream w stream; ensures = λ w r w'. w' ≡ w }

unfoldable pub fgets : Ptr → ℕ → Ptr → Stub Ptr
fgets s n stream = record {
  requires = λ w. IsStream w stream × ValidBytes w.memory s n;
  ensures =
      λ w r w'. OnMemory (Assigns s n) w w' × ValidSubstring w'.memory s n × ((r ≡ s) ⊎ (r ≡ null));
}

unfoldable pub fread : Ptr → ℕ → ℕ → Ptr → Stub ℕ
fread ptr size n stream = record {
  requires = λ w. IsStream w stream × ValidBytes w.memory ptr (size_t (size * n));
  ensures = λ w r w'. OnMemory (Assigns ptr (size_t (size * n))) w w' × (r ≤ n);
}

unfoldable pub fwrite : Ptr → ℕ → ℕ → Ptr → Stub ℕ
fwrite ptr size n stream = record {
  requires = λ w. IsStream w stream × ValidBytes w.memory ptr (size_t (size * n));
  ensures = λ w r w'. (w' ≡ w) × (r ≤ n);
}

unfoldable pub fseek : Ptr → ℤ → Stub ℤ
fseek stream whence = record {
  requires = λ w. IsStream w stream × UpTo 2 whence;
  ensures = λ w r w'. Status w r w';
}

unfoldable pub fseeko : Ptr → ℤ → Stub ℤ
fseeko stream whence = record {
  requires = λ w. IsStream w stream × UpTo 2 whence;
  ensures = λ w r w'. Status w r w';
}

unfoldable pub ftell : Ptr → Stub ℤ
ftell stream = record {
  requires = λ w. IsStream w stream;
  ensures = λ w r w'. ((w' ≡ w) × NonNeg r) ⊎ Fails w r w';
}

unfoldable pub ftello : Ptr → Stub ℤ
ftello stream = record {
  requires = λ w. IsStream w stream;
  ensures = λ w r w'. ((w' ≡ w) × NonNeg r) ⊎ Fails w r w';
}

unfoldable pub rewind : Ptr → Stub (Unit {0})
rewind stream = record { requires = λ w. IsStream w stream; ensures = λ w r w'. w' ≡ w }

unfoldable pub clearerr : Ptr → Stub (Unit {0})
clearerr stream = record { requires = λ w. IsStream w stream; ensures = λ w r w'. w' ≡ w }

unfoldable pub flockfile : Ptr → Stub (Unit {0})
flockfile stream = record { requires = λ w. IsStream w stream; ensures = λ w r w'. w' ≡ w }

unfoldable pub funlockfile : Ptr → Stub (Unit {0})
funlockfile stream = record { requires = λ w. IsStream w stream; ensures = λ w r w'. w' ≡ w }

unfoldable pub setlinebuf : Ptr → Stub (Unit {0})
setlinebuf stream = record { requires = λ w. IsStream w stream; ensures = λ w r w'. w' ≡ w }

unfoldable pub feof : Ptr → Stub ℤ
feof stream = record { requires = λ w. IsStream w stream; ensures = λ w r w'. w' ≡ w }

unfoldable pub ferror : Ptr → Stub ℤ
ferror stream = record { requires = λ w. IsStream w stream; ensures = λ w r w'. w' ≡ w }

unfoldable pub ftrylockfile : Ptr → Stub ℤ
ftrylockfile stream = record { requires = λ w. IsStream w stream; ensures = λ w r w'. w' ≡ w }

unfoldable pub setbuffer : Ptr → Ptr → ℕ → Stub (Unit {0})
setbuffer stream buf size = record {
  requires = λ w. IsStream w stream × ValidBytes w.memory buf size;
  ensures = λ w r w'. w' ≡ w;
}

unfoldable pub setvbuf : Ptr → Ptr → ℤ → ℕ → Stub ℤ
setvbuf stream buf modes n = record {
  requires = λ w. IsStream w stream × ValidBytes w.memory buf n × UpTo 2 modes;
  ensures = λ w r w'. ((w' ≡ w) × (r ≡ pos 0)) ⊎ (Errno w w' × (r ≢ pos 0));
}

unfoldable pub remove_file : Ptr → Stub ℤ
remove_file filename = record {
  requires = λ w. ValidString w.memory filename;
  ensures = λ w r w'. Status w r w';
}

unfoldable pub rename : Ptr → Ptr → Stub ℤ
rename old new = record {
  requires = λ w. ValidString w.memory old × ValidString w.memory new;
  ensures = λ w r w'. Status w r w';
}

unfoldable pub perror : Ptr → Stub (Unit {0})
perror s = record { requires = λ w. ValidString w.memory s; ensures = λ w r w'. w' ≡ w }

unfoldable pub vfprintf : Ptr → Ptr → Stub ℤ
vfprintf s format = record {
  requires = λ w. IsStream w s × ValidString w.memory format;
  ensures = λ w r w'. w' ≡ w;
}

unfoldable pub vprintf : Ptr → Stub ℤ
vprintf format = record { requires = λ w. ValidString w.memory format; ensures = λ w r w'. w' ≡ w }

unfoldable pub vsnprintf : Ptr → ℕ → Ptr → Stub ℤ
vsnprintf s maxlen format = record {
  requires = λ w. ValidBytes w.memory s maxlen × ValidString w.memory format;
  ensures = λ w r w'. OnMemory (Assigns s maxlen) w w' × ValidSubstring w'.memory s maxlen;
}

unfoldable pub vdprintf : ℤ → Ptr → Stub ℤ
vdprintf fd fmt = record {
  requires = λ w. IsOpen w fd × ValidString w.memory fmt;
  ensures = λ w r w'. w' ≡ w;
}

unfoldable pub vfscanf : Ptr → Ptr → Stub ℤ
vfscanf s format = record {
  requires = λ w. IsStream w s × ValidString w.memory format;
  ensures = λ w r w'. w' ≡ w;
}

unfoldable pub vscanf : Ptr → Stub ℤ
vscanf format = record { requires = λ w. ValidString w.memory format; ensures = λ w r w'. w' ≡ w }

unfoldable pub vsscanf : Ptr → Ptr → Stub ℤ
vsscanf s format = record {
  requires = λ w. ValidString w.memory s × ValidString w.memory format;
  ensures = λ w r w'. w' ≡ w;
}

module _ (sys : Headers) where
  unfoldable pub fgetc : Ptr → Stub ℤ
  fgetc stream = record {
    requires = λ w. IsStream w stream;
    ensures = λ w r w'. (w' ≡ w) × (UpTo 255 r ⊎ (r ≡ sys.eof));
  }

  unfoldable pub getchar : Stub ℤ
  getchar = record {
    requires = λ w. Unit;
    ensures = λ w r w'. (w' ≡ w) × (UpTo 255 r ⊎ (r ≡ sys.eof));
  }

  unfoldable pub fputc : ℤ → Ptr → Stub ℤ
  fputc c stream = record {
    requires = λ w. IsStream w stream;
    ensures = λ w r w'. (w' ≡ w) × ((r ≡ pos (to_uchar c)) ⊎ (r ≡ sys.eof));
  }

  unfoldable pub putchar : ℤ → Stub ℤ
  putchar c = record {
    requires = λ w. Unit;
    ensures = λ w r w'. (w' ≡ w) × ((r ≡ pos (to_uchar c)) ⊎ (r ≡ sys.eof));
  }

  unfoldable pub ungetc : ℤ → Ptr → Stub ℤ
  ungetc c stream = record {
    requires = λ w. IsStream w stream;
    ensures = λ w r w'. (w' ≡ w) × ((r ≡ pos (to_uchar c)) ⊎ (r ≡ sys.eof));
  }

  unfoldable pub putw : Ptr → Stub ℤ
  putw stream = record {
    requires = λ w. IsStream w stream;
    ensures = λ w r w'. (w' ≡ w) × ((r ≡ pos 0) ⊎ (r ≡ sys.eof));
  }

  unfoldable pub fputs : Ptr → Ptr → Stub ℤ
  fputs s stream = record {
    requires = λ w. IsStream w stream × ValidString w.memory s;
    ensures = λ w r w'. ((w' ≡ w) × NonNeg r) ⊎ (Errno w w' × (r ≡ sys.eof));
  }

  unfoldable pub puts : Ptr → Stub ℤ
  puts s = record {
    requires = λ w. ValidString w.memory s;
    ensures = λ w r w'. ((w' ≡ w) × NonNeg r) ⊎ (Errno w w' × (r ≡ sys.eof));
  }

  unfoldable pub renameat : ℤ → Ptr → ℤ → Ptr → Stub ℤ
  renameat oldfd old newfd new = record {
    requires = λ w.
        ValidString w.memory old
        × ValidString w.memory new
        × AtOrOpen sys w oldfd
        × AtOrOpen sys w newfd;
    ensures = λ w r w'. Status w r w';
  }
