-- ===== src/Stub/Search/Tests.antt =====
-- A search that finds the second byte of a string.
use mopsa_ocaml.Prelude.{pos, inr, refl, arith}
use mopsa_ocaml.Stub.Memory.{at}
use mopsa_ocaml.Stub.Sample.{sample, ab}
use mopsa_ocaml.Stub.Search.{bsearch}

searched : (bsearch ab ab 2 1).requires sample
unfolding bsearch
searched = ((λ _. (refl, omega arith)), λ _. (refl, omega arith))

element_found : (bsearch ab ab 2 1).returns sample (at 1 (pos 1))
unfolding bsearch
element_found = inr (1, omega arith, omega arith, refl)
