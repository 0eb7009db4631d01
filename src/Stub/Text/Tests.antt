-- ===== src/Stub/Text/Tests.antt =====
-- Instances of the theorems on the str* stubs of share/mopsa/stubs/c/libc/string.c.
use mopsa_ocaml.Prelude.{ℕ, ◌+◌, refl, arith}
use mopsa_ocaml.Stub.Overwrite.{overwrite-Assigns}
use mopsa_ocaml.Stub.Sample.{sample, ab, x}
use mopsa_ocaml.Stub.Text.Length.{strlen}
use mopsa_ocaml.Stub.Text.Copying.{strcpy, strcat}
use mopsa_ocaml.Stub.Text.Terminated.{strcat-strlen}
use mopsa_ocaml.Stub.Text.Facts.{
  ab_ends, x_ends, ab_valid, x_valid, ab_length, x_length, after, joined, after_cat, cat_old,
  cat_new, strcpy_written, strcpy_bytes,
}

strcpy_requires : (strcpy x ab).requires sample
unfolding strcpy
strcpy_requires = (
  ab_valid,
  λ len h. (λ _ _ e. absurd (omega arith), λ _. (refl, omega (arith, ab_length len h))),
)

strcpy_done : (strcpy x ab).ensures sample x (after 3 0)
unfolding strcpy
strcpy_done = (2, ab_ends, (strcpy_written, strcpy_bytes, refl))

strcat_requires : (strcat x ab).requires sample
unfolding strcat
strcat_requires = (
  ab_valid,
  λ k hk. (
    x_valid,
    λ d hd.
        (λ _ _ e. absurd (omega arith), λ _. (refl, omega (arith, ab_length k hk, x_length d hd))),
  ),
)

strcat-strlen_example :
    (dest_len src_len : ℕ) × (strlen x).returns sample dest_len
    × (strlen ab).returns sample src_len
    × (strlen x).returns after_cat (dest_len + src_len)
unfolding strcat
strcat-strlen_example = strcat-strlen sample after_cat x ab x strcat_requires (
  2,
  ab_ends,
  (1, x_ends, (overwrite-Assigns sample x 4 joined, cat_old, λ i low high. cat_new i high, refl)),
)
