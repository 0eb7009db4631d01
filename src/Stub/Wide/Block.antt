-- ===== src/Stub/Wide/Block.antt =====
-- The wmem* stubs of share/mopsa/stubs/c/libc/wchar.c.
use mopsa_ocaml.Prelude.{ℕ, ℤ, pos, negsuc, ◌*◌, ◌<◌, ◌≡◌, ◌≢◌, ◌⊎◌}
use mopsa_ocaml.Stub.Memory.{Ptr, null, byte, Forall, Exists}
use mopsa_ocaml.Stub.Contract.{Query, Action, Assigns}
use mopsa_ocaml.Stub.Bytes.Defs.{Positive, Negative}
use mopsa_ocaml.Stub.Wide.Chars.{wide, wchar, shift_wide, ValidWchars, NoOverlapWide}

-- The character at `i` is sought in the first case for each `j`, and bytes in the second.
unfoldable pub wmemchr : Ptr → ℤ → ℕ → Query Ptr
wmemchr s c n = record {
  requires = λ m. ValidWchars m s n;
  returns = λ m r.
      (Exists 0 n (λ i. wchar m s i ≡ c)
        × Exists 0 n
            (λ i. (wchar m s i ≡ c) × Forall 0 i (λ j. wchar m s i ≢ c) × (r ≡ shift_wide s i)))
      ⊎ (Forall 0 n (λ i. pos (byte m s i) ≢ c) × (r ≡ null));
}

-- `a < b`.
abbrev pub Less : ℤ → ℤ → Type 0
Less (pos a) (pos b) = a < b
Less (pos a) (negsuc b) = ⊥
Less (negsuc a) (pos b) = Unit
Less (negsuc a) (negsuc b) = b < a

unfoldable pub wmemcmp : Ptr → Ptr → ℕ → Query ℤ
wmemcmp s1 s2 n = record {
  requires = λ m. ValidWchars m s1 n × ValidWchars m s2 n;
  returns = λ m r.
      (Forall 0 n (λ i. wchar m s1 i ≡ wchar m s2 i) × (r ≡ pos 0))
      ⊎ (Exists 0 n (λ i. wchar m s1 i ≢ wchar m s2 i)
          × Exists 0 n λ i.
            (wchar m s1 i ≢ wchar m s2 i)
            × Forall 0 i (λ j. wchar m s1 j ≡ wchar m s2 j)
            × (Less (wchar m s2 i) (wchar m s1 i) → Positive r)
            × (Less (wchar m s1 i) (wchar m s2 i) → Negative r));
}

unfoldable pub wmemcpy : Ptr → Ptr → ℕ → Action Ptr
wmemcpy s1 s2 n = record {
  requires = λ m. NoOverlapWide s1 n s2 n × ValidWchars m s1 n × ValidWchars m s2 n;
  ensures =
      λ m r m'. Assigns s1 (4 * n) m m' × Forall 0 n (λ i. wide m' s1 i ≡ wide m s2 i) × (r ≡ s1);
}

unfoldable pub wmemmove : Ptr → Ptr → ℕ → Action Ptr
wmemmove s1 s2 n = record {
  requires = λ m. ValidWchars m s1 n × ValidWchars m s2 n;
  ensures =
      λ m r m'. Assigns s1 (4 * n) m m' × Forall 0 n (λ i. wide m' s1 i ≡ wide m s2 i) × (r ≡ s1);
}

unfoldable pub wmemset : Ptr → ℤ → ℕ → Action Ptr
wmemset s c n = record {
  requires = λ m. ValidWchars m s n;
  ensures = λ m r m'. Assigns s (4 * n) m m' × Forall 0 n (λ i. wchar m' s i ≡ c) × (r ≡ s);
}
