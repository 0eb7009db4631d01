-- ===== src/Stub/Wide/Search.antt =====
-- The searching and comparing stubs of share/mopsa/stubs/c/libc/wchar.c. They do not read a locale,
-- and of the order of two strings they say nothing.
use mopsa_ocaml.Prelude.{ℕ, ℤ, pos, negsuc, ◌+◌, ◌-◌, ◌≤◌, ◌≡◌, ◌≢◌, ◌⊎◌}
use mopsa_ocaml.Stub.Memory.{Ptr, null, Forall, Exists}
use mopsa_ocaml.Stub.Contract.{Query, Action, Knowing, AssignsErrno}
use mopsa_ocaml.Stub.Wide.Chars.{
  wchar, shift_wide, ValidWide, ValidWchars, ValidWideString, ValidWideSubstring, InWideString,
  InWchars,
}
use mopsa_ocaml.Stub.Wide.Length.{wcslen}

unfoldable pub wcscmp : Ptr → Ptr → Query ℤ
wcscmp s1 s2 = record {
  requires = λ m. ValidWideString m s1 × ValidWideString m s2;
  returns = λ m r. Unit;
}

unfoldable pub wcsncmp : Ptr → Ptr → ℕ → Query ℤ
wcsncmp s1 s2 n = record {
  requires = λ m.
      ValidWide m s1
      × ValidWide m s2
      × (ValidWchars m s1 n ⊎ ValidWideString m s1)
      × (ValidWchars m s2 n ⊎ ValidWideString m s2);
  returns = λ m r. Unit;
}

unfoldable pub wcscasecmp : Ptr → Ptr → Query ℤ
wcscasecmp s1 s2 = record {
  requires = λ m. ValidWideString m s1 × ValidWideString m s2;
  returns = λ m r. Unit;
}

unfoldable pub wcsncasecmp : Ptr → Ptr → ℕ → Query ℤ
wcsncasecmp s1 s2 n = record {
  requires = λ m.
      (ValidWchars m s1 n ⊎ ValidWideString m s1) × (ValidWchars m s2 n ⊎ ValidWideString m s2);
  returns = λ m r. Unit;
}

unfoldable pub wcscasecmp_l : Ptr → Ptr → Query ℤ
wcscasecmp_l s1 s2 = record {
  requires = λ m. ValidWideString m s1 × ValidWideString m s2;
  returns = λ m r. Unit;
}

unfoldable pub wcsncasecmp_l : Ptr → Ptr → ℕ → Query ℤ
wcsncasecmp_l s1 s2 n = record {
  requires = λ m.
      (ValidWchars m s1 n ⊎ ValidWideString m s1) × (ValidWchars m s2 n ⊎ ValidWideString m s2);
  returns = λ m r. Unit;
}

unfoldable pub wcscoll : Ptr → Ptr → Action ℤ
wcscoll s1 s2 = record {
  requires = λ m. ValidWideString m s1 × ValidWideString m s2;
  ensures = λ m r m'. AssignsErrno m m';
}

unfoldable pub wcscoll_l : Ptr → Ptr → Action ℤ
wcscoll_l s1 s2 = record {
  requires = λ m. ValidWideString m s1 × ValidWideString m s2;
  ensures = λ m r m'. AssignsErrno m m';
}

unfoldable pub wcschr : Ptr → ℤ → Query Ptr
wcschr wcs wc = record {
  requires = λ m. (wcslen wcs).requires m;
  returns = λ m r. Knowing (wcslen wcs) m λ len.
      Exists 0 len
        (λ i. (wchar m wcs i ≡ wc) × Forall 0 i (λ j. wchar m wcs j ≢ wc) × (r ≡ shift_wide wcs i))
      ⊎ (Forall 0 len (λ i. wchar m wcs i ≢ wc) × (r ≡ null));
}

unfoldable pub wcsrchr : Ptr → ℤ → Query Ptr
wcsrchr wcs wc = record {
  requires = λ m. (wcslen wcs).requires m;
  returns = λ m r. Knowing (wcslen wcs) m λ len.
      Exists 0 len (λ i.
        (wchar m wcs i ≡ wc)
        × Forall (i + 1) len (λ j. wchar m wcs j ≢ wc)
        × (r ≡ shift_wide wcs i))
      ⊎ (Forall 0 len (λ i. wchar m wcs i ≢ wc) × (r ≡ null));
}

unfoldable pub wcschrnul : Ptr → ℤ → Query Ptr
wcschrnul wcs wc = record {
  requires = λ m. (wcslen wcs).requires m;
  returns = λ m r. Knowing (wcslen wcs) m λ len.
      Exists 0 len
        (λ i. (wchar m wcs i ≡ wc) × Forall 0 i (λ j. wchar m wcs j ≢ wc) × (r ≡ shift_wide wcs i))
      ⊎ (Forall 0 len (λ i. wchar m wcs i ≢ wc) × (r ≡ shift_wide wcs len));
}

unfoldable pub wcscspn : Ptr → Ptr → Query ℕ
wcscspn wcs reject = record {
  requires = λ m. ValidWideString m reject × (wcslen wcs).requires m;
  returns = λ m r. Knowing (wcslen wcs) m (λ len. r ≤ len);
}

unfoldable pub wcsspn : Ptr → Ptr → Query ℕ
wcsspn wcs accept = record {
  requires = λ m. ValidWideString m accept × (wcslen wcs).requires m;
  returns = λ m r. Knowing (wcslen wcs) m (λ len. r ≤ len);
}

unfoldable pub wcspbrk : Ptr → Ptr → Query Ptr
wcspbrk wcs accept = record {
  requires = λ m. ValidWideString m wcs × ValidWideString m accept;
  returns = λ m r. (r ≡ null) ⊎ InWideString m r wcs;
}

unfoldable pub wcsstr : Ptr → Ptr → Query Ptr
wcsstr haystack needle = record {
  requires = λ m. (wcslen haystack).requires m × (wcslen needle).requires m;
  returns = λ m r. Knowing (wcslen haystack) m λ len1.
      Knowing (wcslen needle) m
        λ len2. (r ≡ null) ⊎ ((len2 ≤ len1) × InWchars r haystack (len1 - len2));
}

-- An alias.
unfoldable pub wcswcs : Ptr → Ptr → Query Ptr
wcswcs = wcsstr

-- `return >= -1`.
abbrev AtLeastMinusOne : ℤ → Type 0
AtLeastMinusOne (pos n) = Unit
AtLeastMinusOne (negsuc n) = n ≡ 0

unfoldable pub wcwidth : ℤ → Query ℤ
wcwidth c = record { requires = λ m. Unit; returns = λ m r. AtLeastMinusOne r }

unfoldable pub wcswidth : Ptr → ℕ → Query ℤ
wcswidth s n = record {
  requires = λ m. ValidWideSubstring m s n ⊎ ValidWchars m s n;
  returns = λ m r. AtLeastMinusOne r;
}
