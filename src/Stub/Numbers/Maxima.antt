-- ===== src/Stub/Numbers/Maxima.antt =====
-- strtoimax and strtoumax of share/mopsa/stubs/c/libc/inttypes.c.
use mopsa_ocaml.Prelude.{ℤ}
use mopsa_ocaml.Stub.Memory.{Ptr}
use mopsa_ocaml.Stub.Contract.{AssignsErrno}
use mopsa_ocaml.Stub.Numbers.{Conversion, EndWithin, Readable, IsBase}

unfoldable pub strtoimax : Ptr → ℤ → Conversion ℤ
strtoimax nptr b = record {
  requires = λ m endptr. IsBase b × Readable nptr m endptr;
  ensures = λ m endptr r end m'. AssignsErrno m m' × EndWithin nptr m endptr end;
}

unfoldable pub strtoumax : Ptr → ℤ → Conversion ℤ
strtoumax nptr b = record {
  requires = λ m endptr. IsBase b × Readable nptr m endptr;
  ensures = λ m endptr r end m'. AssignsErrno m m' × EndWithin nptr m endptr end;
}
