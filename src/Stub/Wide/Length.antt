-- ===== src/Stub/Wide/Length.antt =====
-- wcslen and wcsnlen of share/mopsa/stubs/c/libc/wchar.c. A comparison of a wide character with 0 is
-- one of its number.
use mopsa_ocaml.Prelude.{ℕ, ◌<◌, ◌≡◌, ◌≢◌, ◌⊎◌}
use mopsa_ocaml.Stub.Memory.{Ptr, Forall}
use mopsa_ocaml.Stub.Contract.{Query, Knowing}
use mopsa_ocaml.Stub.Wide.Chars.{wide, room_wide, ValidWchars, ValidWideString, ValidWideSubstring}

unfoldable pub wcslen : Ptr → Query ℕ
wcslen s = record {
  requires = λ m. ValidWideString m s;
  returns = λ m r. (r < room_wide m s) × (wide m s r ≡ 0) × Forall 0 r (λ j. wide m s j ≢ 0);
}

unfoldable pub wcsnlen : Ptr → ℕ → Query ℕ
unfolding wcslen
wcsnlen s maxlen = record {
  requires = λ m.
      (ValidWchars m s maxlen ⊎ ValidWideString m s)
      × (ValidWideSubstring m s maxlen → (wcslen s).requires m);
  returns = λ m r.
      (ValidWideSubstring m s maxlen × Knowing (wcslen s) m (λ len. r ≡ len))
      ⊎ (Forall 0 maxlen (λ i. wide m s i ≢ 0) × (r ≡ maxlen));
}
