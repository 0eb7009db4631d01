-- ===== src/Stub/Text/Length.antt =====
-- strlen and strnlen of share/mopsa/stubs/c/libc/string.c. A comparison of a character with 0 is one
-- of its byte.
use mopsa_ocaml.Prelude.{ℕ, ◌<◌, ◌≡◌, ◌≢◌, ◌⊎◌}
use mopsa_ocaml.Stub.Memory.{Ptr, byte, room, Forall, ValidBytes, ValidString, ValidSubstring}
use mopsa_ocaml.Stub.Contract.{Query, Knowing}

unfoldable pub strlen : Ptr → Query ℕ
strlen s = record {
  requires = λ m. ValidString m s;
  returns = λ m r. (r < room m s) × (byte m s r ≡ 0) × Forall 0 r (λ j. byte m s j ≢ 0);
}

unfoldable pub strnlen : Ptr → ℕ → Query ℕ
unfolding strlen
strnlen s maxlen = record {
  requires = λ m.
      (ValidBytes m s maxlen ⊎ ValidString m s)
      × (ValidSubstring m s maxlen → (strlen s).requires m);
  returns = λ m r.
      (ValidSubstring m s maxlen × Knowing (strlen s) m (λ len. r ≡ len))
      ⊎ (Forall 0 maxlen (λ i. byte m s i ≢ 0) × (r ≡ maxlen));
}

-- An alias.
unfoldable pub builtin_strlen : Ptr → Query ℕ
builtin_strlen = strlen
