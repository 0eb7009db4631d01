-- ===== src/Stub/Bytes/Tests.antt =====
-- Instances of the theorems on the mem* stubs of share/mopsa/stubs/c/libc/string.c.
use mopsa_ocaml.Prelude.{◌≡◌, refl, arith}
use mopsa_ocaml.Stub.Memory.{pos, Ptr, at, Memory}
use mopsa_ocaml.Stub.Overwrite.{SameMemory}
use mopsa_ocaml.Stub.Sample.{sample, ab}
use mopsa_ocaml.Stub.Bytes.Defs.{memmove}
use mopsa_ocaml.Stub.Bytes.Copy.{copied, memmove_lem}

-- A move by one byte, within a block.
memmove_lem_example :
    (memmove (at 1 (pos 1)) ab 2).ensures sample (at 1 (pos 1)) (copied sample (at 1 (pos 1)) ab 2)
    × ((r : Ptr) (m' : Memory)
        → (memmove (at 1 (pos 1)) ab 2).ensures sample r m'
        → (r ≡ at 1 (pos 1)) × SameMemory m' (copied sample (at 1 (pos 1)) ab 2))
unfolding memmove
memmove_lem_example =
    memmove_lem sample (at 1 (pos 1)) ab 2 (λ _. (refl, omega arith), λ _. (refl, omega arith))
