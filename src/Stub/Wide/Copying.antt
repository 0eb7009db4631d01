-- ===== src/Stub/Wide/Copying.antt =====
-- The copying stubs of share/mopsa/stubs/c/libc/wchar.c. A comparison of two wide characters is one
-- of their numbers.
use mopsa_ocaml.Prelude.{ℕ, pos, negsuc, ◌+◌, ◌-◌, ◌*◌, ◌<◌, ◌≡◌, ◌⊎◌, ltb, if◌then◌else◌}
use Prim.Native.Nat.{◌/◌}
use mopsa_ocaml.Stub.Memory.{Ptr, null, invalid, at, Forall}
use mopsa_ocaml.Stub.Contract.{Action, Requiring, Knowing, Assigns, AssignsErrno, NewMemory}
use mopsa_ocaml.Stub.Wide.Chars.{wide, shift_wide, ValidWchars, ValidWideString, NoOverlapWide}
use mopsa_ocaml.Stub.Wide.Length.{wcslen, wcsnlen}

unfoldable pub wcscpy : Ptr → Ptr → Action Ptr
wcscpy dest src = record {
  requires = λ m. Requiring (wcslen src) m λ src_len.
      NoOverlapWide src (src_len + 1) dest (src_len + 1) × ValidWchars m dest (src_len + 1);
  ensures = λ m r m'. Knowing (wcslen src) m λ src_len.
      Assigns dest (4 * (src_len + 1)) m m'
      × Forall 0 (src_len + 1) (λ i. wide m' dest i ≡ wide m src i)
      × (r ≡ dest);
}

unfoldable pub wcsncpy : Ptr → Ptr → ℕ → Action Ptr
wcsncpy dest src n = record {
  requires = λ m.
      (ValidWchars m src n ⊎ ValidWideString m src)
      × ValidWchars m dest n
      × Requiring (wcsnlen src n) m (λ src_nlen. NoOverlapWide src src_nlen dest src_nlen);
  ensures = λ m r m'. Knowing (wcsnlen src n) m λ src_nlen.
      Assigns dest (4 * n) m m'
      × Forall 0 src_nlen (λ i. wide m' dest i ≡ wide m src i)
      × Forall src_nlen n (λ i. wide m' dest i ≡ 0)
      × (r ≡ dest);
}

-- The destination is required to hold one character less than is assigned.
unfoldable pub wcscat : Ptr → Ptr → Action Ptr
wcscat dest src = record {
  requires = λ m. Requiring (wcslen src) m λ src_len. Requiring (wcslen dest) m λ dest_len.
      NoOverlapWide src (src_len + 1) dest (dest_len + src_len + 1)
      × ValidWchars m dest (dest_len + src_len);
  ensures = λ m r m'. Knowing (wcslen src) m λ src_len. Knowing (wcslen dest) m λ dest_len.
      Assigns dest (4 * (dest_len + src_len + 1)) m m'
      × Forall 0 dest_len (λ i. wide m' dest i ≡ wide m dest i)
      × Forall 0 (src_len + 1) (λ i. wide m' dest (dest_len + i) ≡ wide m src i)
      × (r ≡ dest);
}

unfoldable pub wcsncat : Ptr → Ptr → ℕ → Action Ptr
wcsncat dest src n = record {
  requires = λ m. Requiring (wcsnlen src n) m λ src_nlen. Requiring (wcslen dest) m λ dest_len.
      NoOverlapWide src (src_nlen + 1) dest (dest_len + src_nlen + 1)
      × ValidWchars m dest (dest_len + src_nlen + 1);
  ensures = λ m r m'. Knowing (wcsnlen src n) m λ src_nlen. Knowing (wcslen dest) m λ dest_len.
      Assigns dest (4 * (dest_len + src_nlen + 1)) m m'
      × Forall 0 dest_len (λ i. wide m' dest i ≡ wide m dest i)
      × Forall 0 src_nlen (λ i. wide m' dest (dest_len + i) ≡ wide m src i)
      × (wide m' dest (dest_len + src_nlen) ≡ 0)
      × (r ≡ dest);
}

-- `size(return)` counts characters.
unfoldable pub wcsdup : Ptr → Action Ptr
wcsdup s = record {
  requires = λ m. (wcslen s).requires m;
  ensures = λ m r m'. Knowing (wcslen s) m λ len.
      ((b : ℕ) × NewMemory b m m'
        × (r ≡ at b (pos 0))
        × (m'.size b / 4 ≡ len + 1)
        × Forall 0 (len + 1) (λ i. wide m' (at b (pos 0)) i ≡ wide m s i))
      ⊎ (AssignsErrno m m' × (r ≡ null));
}

unfoldable pub wcpcpy : Ptr → Ptr → Action Ptr
wcpcpy dest src = record {
  requires = λ m. Requiring (wcslen src) m λ src_len.
      NoOverlapWide src (src_len + 1) dest (src_len + 1) × ValidWchars m dest (src_len + 1);
  ensures = λ m r m'. Knowing (wcslen src) m λ src_len.
      Assigns dest (4 * (src_len + 1)) m m'
      × Forall 0 (src_len + 1) (λ i. wide m' dest i ≡ wide m src i)
      × (r ≡ shift_wide dest src_len);
}

-- `p - 1`, for a pointer to wide characters.
abbrev pub shift_wide_back : Ptr → Ptr
shift_wide_back null = invalid
shift_wide_back invalid = invalid
shift_wide_back (at b (negsuc o)) = at b (negsuc (o + 4))
shift_wide_back (at b (pos o)) = at b (if ltb o 4 then negsuc (3 - o) else pos (o - 4))

unfoldable pub wcpncpy : Ptr → Ptr → ℕ → Action Ptr
wcpncpy dest src n = record {
  requires = λ m.
      (ValidWchars m src n ⊎ ValidWideString m src)
      × ValidWchars m dest n
      × Requiring (wcsnlen src n) m (λ src_nlen. NoOverlapWide src src_nlen dest src_nlen);
  ensures = λ m r m'. Knowing (wcsnlen src n) m λ src_nlen.
      Assigns dest (4 * n) m m'
      × Forall 0 src_nlen (λ i. wide m' dest i ≡ wide m src i)
      × Forall src_nlen n (λ i. wide m' dest i ≡ 0)
      × (r ≡ shift_wide_back (shift_wide dest n));
}

unfoldable pub wcsxfrm : Ptr → Ptr → ℕ → Action ℕ
wcsxfrm s1 s2 n = record {
  requires = λ m. ValidWideString m s2 × ValidWchars m s1 n × NoOverlapWide s1 n s2 n;
  ensures = λ m r m'. Assigns s1 (4 * n) m m' × (r < n → wide m' s1 r ≡ 0);
}

-- The locale is not read.
unfoldable pub wcsxfrm_l : Ptr → Ptr → ℕ → Action ℕ
wcsxfrm_l s1 s2 n = record {
  requires = λ m. ValidWideString m s2 × ValidWchars m s1 n × NoOverlapWide s1 n s2 n;
  ensures = λ m r m'. Assigns s1 (4 * n) m m' × (r < n → wide m' s1 r ≡ 0);
}
