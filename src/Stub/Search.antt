-- ===== src/Stub/Search.antt =====
-- bsearch and qsort of share/mopsa/stubs/c/libc/stdlib.c, whose contracts do not call the comparison.
mod Tests
use mathlib.Core.Path.{◌≡◌}
use mopsa_ocaml.Prelude.{ℕ, pos, negsuc, ◌+◌, ◌-◌, ◌*◌, ◌≤◌, ◌<◌, ◌≢◌, ◌⊎◌, inl, inr, arith}
use native.Mathlib.Nat.{mul-le-mul_right, add-mul}
use mopsa_ocaml.Stub.Memory.{
  Ptr, null, invalid, at, Memory, shift, Exists, ValidBlock, ValidBytes, size_t,
}
use mopsa_ocaml.Stub.Contract.{Query}

unfoldable pub bsearch : Ptr → Ptr → ℕ → ℕ → Query Ptr
bsearch key base nmemb size = record {
  requires = λ m. ValidBytes m base (size_t (nmemb * size)) × ValidBytes m key size;
  returns = λ m r. (r ≡ null) ⊎ Exists 0 nmemb (λ i. r ≡ shift base (size_t (i * size)));
}

unfoldable pub qsort : Ptr → ℕ → ℕ → Query Unit
qsort base nmemb size = record {
  requires = λ m. ValidBytes m base (size_t (nmemb * size));
  returns = λ m r. Unit;
}

unfoldable pub qsort_r : Ptr → ℕ → ℕ → Query Unit
qsort_r base nmemb size = record {
  requires = λ m. ValidBytes m base (size_t (nmemb * size));
  returns = λ m r. Unit;
}
