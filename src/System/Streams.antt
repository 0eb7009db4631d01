-- ===== src/System/Streams.antt =====
-- The stubs of stdio.c that open and close streams.
use mathlib.Core.Path.{◌≡◌}
use mopsa_ocaml.Prelude.{ℕ, ℤ, pos, ◌≢◌, ◌⊎◌, Option, none, some}
use mopsa_ocaml.Stub.Memory.{Ptr, null, at, ValidBytes, ValidString}
use mopsa_ocaml.System.World.{
  World, Headers, Stub, file, file_res, Errno, find_file_resource, AliveResource, IsOpen, InKind,
  IsFreeable, NewResource, registered, registered_at, smallest_free, freed,
}
use mopsa_ocaml.System.Heap.{FailsNull, base}

-- `alive_resource(stream, File)`.
abbrev pub IsStream : World → Ptr → Type 0
IsStream w (at b o) = AliveResource w file (some b)
IsStream w _ = ⊥

-- `free: f;`, which does nothing where `f` is null.
abbrev pub freed_file : World → Option ℕ → World
freed_file w none = w
freed_file w (some f) = freed w f

module _ (sys : Headers) where
  -- A stream over the descriptor `fd`.
  abbrev pub NewStream : ℤ → World → Ptr → World → Type 0
  NewStream fd w r w' =
      (b : ℕ) × NewResource file b w w'
      × (w'.memory.size b ≡ sys.sizeof_file)
      × (w'.fileno b ≡ fd)
      × (r ≡ at b (pos 0))

  -- _alloc_FILE.
  abbrev pub OpensStream : World → Ptr → World → Type 0
  OpensStream w r w' =
      (f : ℕ) × (w1 : World) × NewResource file_res f w w1
      × NewStream (smallest_free w1 f) (registered w1 f) r w'

  -- _alloc_FILE_at.
  abbrev pub OpensStreamAt : ℕ → World → Ptr → World → Type 0
  OpensStreamAt fd w r w' =
      (f : ℕ) × (w1 : World) × NewResource file_res f w w1
      × NewStream (pos fd) (registered_at w1 f fd) r w'

  unfoldable pub fopen : Ptr → Ptr → Stub Ptr
  fopen filename modes = record {
    requires = λ w. ValidString w.memory filename × ValidString w.memory modes;
    ensures = λ w r w'. OpensStream w r w' ⊎ FailsNull w r w';
  }

  unfoldable pub fdopen : ℕ → Ptr → Stub Ptr
  fdopen fd modes = record {
    requires = λ w. ValidString w.memory modes × IsOpen w (pos fd);
    ensures = λ w r w'. OpensStreamAt fd w r w' ⊎ FailsNull w r w';
  }

  unfoldable pub tmpfile : Stub Ptr
  tmpfile = record {
    requires = λ w. Unit;
    ensures = λ w r w'. OpensStream w r w' ⊎ FailsNull w r w';
  }

  unfoldable pub fmemopen : Ptr → ℕ → Ptr → Stub Ptr
  fmemopen s len modes = record {
    requires = λ w. ValidString w.memory modes × ValidBytes w.memory s len;
    ensures = λ w r w'. OpensStream w r w' ⊎ FailsNull w r w';
  }

  unfoldable pub popen : Ptr → Ptr → Stub Ptr
  popen command modes = record {
    requires = λ w. ValidString w.memory command × ValidString w.memory modes;
    ensures = λ w r w'. OpensStream w r w' ⊎ FailsNull w r w';
  }

  unfoldable pub fclose : Ptr → Stub ℤ
  fclose stream = record {
    requires = λ w. IsFreeable w file stream;
    ensures = λ w r w'.
        ((w' ≡ freed_file (freed w (base stream)) (find_file_resource w (w.fileno (base stream))))
          × (r ≡ pos 0))
        ⊎ (Errno w w' × (r ≡ sys.eof));
  }

  unfoldable pub fflush : Ptr → Stub ℤ
  fflush stream = record {
    requires = λ w. stream ≢ null → InKind w file stream;
    ensures = λ w r w'. ((w' ≡ w) × (r ≡ pos 0)) ⊎ (Errno w w' × (r ≡ sys.eof));
  }

unfoldable pub freopen : Ptr → Ptr → Ptr → Stub Ptr
freopen filename modes stream = record {
  requires = λ w. ValidString w.memory filename × ValidString w.memory modes × IsStream w stream;
  ensures = λ w r w'. ((w' ≡ w) × (r ≡ stream)) ⊎ FailsNull w r w';
}

-- The resource behind the descriptor is not freed.
unfoldable pub pclose : Ptr → Stub ℤ
pclose stream = record {
  requires = λ w. IsFreeable w file stream;
  ensures = λ w r w'. (w1 : World) × Errno w w1 × (w' ≡ freed w1 (base stream));
}

unfoldable pub fileno : Ptr → Stub ℤ
fileno stream = record {
  requires = λ w. IsStream w stream;
  ensures = λ w r w'. (w' ≡ w) × (r ≡ w.fileno (base stream));
}
