-- ===== src/Stub/Multibyte.antt =====
-- The multibyte conversions of share/mopsa/stubs/c/libc/stdlib.c.
use mathlib.Core.Path.{◌≡◌}
use mopsa_ocaml.Prelude.{ℕ, ℤ, pos, negsuc, ◌*◌, ◌≤◌, ◌≢◌, ◌⊎◌}
use mopsa_ocaml.Stub.Memory.{Ptr, null, ValidBytes, ValidString}
use mopsa_ocaml.Stub.Contract.{Query, Action, Assigns}
use mopsa_ocaml.Stub.Wide.Chars.{ValidWchars, ValidWideString}

-- `return in [-1, n]`.
abbrev pub Progress : ℕ → ℤ → Type 0
Progress n r = (r ≡ negsuc 0) ⊎ ((k : ℕ) × (k ≤ n) × (r ≡ pos k))

unfoldable pub mblen : Ptr → ℕ → Query ℤ
mblen s n = record {
  requires = λ m. ValidBytes m s n;
  returns = λ m r. ((s ≢ null) × Progress n r) ⊎ (s ≡ null);
}

unfoldable pub mbtowc : Ptr → Ptr → ℕ → Action ℤ
mbtowc pwc s n = record {
  requires = λ m. ValidBytes m s n;
  ensures = λ m r m'.
      ((s ≢ null) × (pwc ≡ null) × (m' ≡ m) × Progress n r)
      ⊎ ((s ≢ null) × (pwc ≢ null) × Assigns pwc 4 m m' × Progress n r)
      ⊎ ((s ≡ null) × (m' ≡ m));
}

-- `longest` is MB_LEN_MAX.
unfoldable pub wctomb : ℕ → Ptr → Action ℤ
wctomb longest s = record {
  requires = λ m. ValidBytes m s longest;
  ensures = λ m r m'.
      ((s ≢ null) × Assigns s longest m m' × Progress longest r) ⊎ ((s ≡ null) × (m' ≡ m));
}

unfoldable pub mbstowcs : Ptr → Ptr → ℕ → Action ℕ
mbstowcs dst src len = record {
  requires = λ m. (dst ≢ null → ValidWchars m dst len) × ValidString m src;
  ensures = λ m r m'. ((dst ≢ null) × Assigns dst (4 * len) m m') ⊎ ((dst ≡ null) × (m' ≡ m));
}

unfoldable pub wcstombs : Ptr → Ptr → ℕ → Action ℕ
wcstombs dst src len = record {
  requires = λ m. ValidBytes m dst len × ValidWideString m src;
  ensures = λ m r m'. ((dst ≢ null) × Assigns dst len m m') ⊎ ((dst ≡ null) × (m' ≡ m));
}
