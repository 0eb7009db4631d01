-- ===== src/Stub/Text/Find.antt =====
-- The searching and comparing stubs of share/mopsa/stubs/c/libc/string.c and strings.c.
use mopsa_ocaml.Prelude.{ℕ, ◌+◌, ◌-◌, ◌<◌, ◌≤◌, ◌≡◌, ◌≢◌, ◌⊎◌}
use mopsa_ocaml.Stub.Memory.{
  ℤ, Ptr, null, Memory, byte, to_char, shift, Forall, Exists, ValidPtr, ValidBytes, ValidString,
  InBytes, InString, NoOverlap,
}
use mopsa_ocaml.Stub.Contract.{Query, Action, Knowing, Assigns}
use mopsa_ocaml.Stub.Text.Length.{strlen}

-- `s[i]`, a `char`, as it is compared with an `int`.
abbrev pub char : Memory → Ptr → ℕ → ℤ
char m s i = to_char (byte m s i)

unfoldable pub strchr : Ptr → ℤ → Query Ptr
strchr s c = record {
  requires = λ m. (strlen s).requires m;
  returns = λ m r. Knowing (strlen s) m λ len.
      Exists 0 len (λ i. (char m s i ≡ c) × Forall 0 i (λ j. char m s j ≢ c) × (r ≡ shift s i))
      ⊎ (Forall 0 len (λ i. char m s i ≢ c) × (r ≡ null));
}

unfoldable pub strrchr : Ptr → ℤ → Query Ptr
strrchr s c = record {
  requires = λ m. (strlen s).requires m;
  returns = λ m r. Knowing (strlen s) m λ len.
      Exists 0 len
        (λ i. (char m s i ≡ c) × Forall (i + 1) len (λ j. char m s j ≢ c) × (r ≡ shift s i))
      ⊎ (Forall 0 len (λ i. char m s i ≢ c) × (r ≡ null));
}

unfoldable pub strchrnul : Ptr → ℤ → Query Ptr
strchrnul s c = record {
  requires = λ m. (strlen s).requires m;
  returns = λ m r. Knowing (strlen s) m λ len.
      Exists 0 len (λ i. (char m s i ≡ c) × Forall 0 i (λ j. char m s j ≢ c) × (r ≡ shift s i))
      ⊎ (Forall 0 len (λ i. char m s i ≢ c) × (r ≡ shift s len));
}

-- strings.c
unfoldable pub index : Ptr → ℤ → Query Ptr
unfolding strchr
index s c = record {
  requires = λ m. (strchr s c).requires m;
  returns = λ m r. (q : Ptr) × (strchr s c).returns m q × (r ≡ q);
}

unfoldable pub rindex : Ptr → ℤ → Query Ptr
unfolding strrchr
rindex s c = record {
  requires = λ m. (strrchr s c).requires m;
  returns = λ m r. (q : Ptr) × (strrchr s c).returns m q × (r ≡ q);
}

unfoldable pub strcspn : Ptr → Ptr → Query ℕ
strcspn s reject = record {
  requires = λ m. ValidString m reject × (strlen s).requires m;
  returns = λ m r. Knowing (strlen s) m (λ len. r ≤ len);
}

unfoldable pub strspn : Ptr → Ptr → Query ℕ
strspn s accept = record {
  requires = λ m. ValidString m accept × (strlen s).requires m;
  returns = λ m r. Knowing (strlen s) m (λ len. r ≤ len);
}

unfoldable pub strpbrk : Ptr → Ptr → Query Ptr
strpbrk s accept = record {
  requires = λ m. ValidString m s × ValidString m accept;
  returns = λ m r. (r ≡ null) ⊎ InString m r s;
}

unfoldable pub strstr : Ptr → Ptr → Query Ptr
strstr haystack needle = record {
  requires = λ m. (strlen haystack).requires m × (strlen needle).requires m;
  returns = λ m r. Knowing (strlen haystack) m λ len1.
      Knowing (strlen needle) m
        λ len2. (r ≡ null) ⊎ ((len2 ≤ len1) × InBytes r haystack (len1 - len2));
}

unfoldable pub strcasestr : Ptr → Ptr → Query Ptr
strcasestr haystack needle = record {
  requires = λ m. (strlen haystack).requires m × (strlen needle).requires m;
  returns = λ m r. Knowing (strlen haystack) m λ len1.
      Knowing (strlen needle) m
        λ len2. (r ≡ null) ⊎ ((len2 ≤ len1) × InBytes r haystack (len1 - len2));
}

-- Of the order of two strings the contracts say nothing.
unfoldable pub strcmp : Ptr → Ptr → Query ℤ
strcmp s1 s2 = record { requires = λ m. ValidString m s1 × ValidString m s2; returns = λ m r. Unit }

unfoldable pub strncmp : Ptr → Ptr → ℕ → Query ℤ
strncmp s1 s2 n = record {
  requires = λ m.
      ValidPtr m s1
      × ValidPtr m s2
      × (ValidBytes m s1 n ⊎ ValidString m s1)
      × (ValidBytes m s2 n ⊎ ValidString m s2);
  returns = λ m r. Unit;
}

unfoldable pub strcoll : Ptr → Ptr → Query ℤ
strcoll s1 s2 = record {
  requires = λ m. ValidString m s1 × ValidString m s2;
  returns = λ m r. Unit;
}

unfoldable pub strxfrm : Ptr → Ptr → ℕ → Action ℕ
strxfrm dest src n = record {
  requires = λ m. ValidString m src × ValidBytes m dest n × NoOverlap src n dest n;
  ensures = λ m r m'. Assigns dest n m m' × (r < n → byte m' dest r ≡ 0);
}

unfoldable pub strfry : Ptr → Action Ptr
strfry string = record {
  requires = λ m. (strlen string).requires m;
  ensures = λ m r m'. Knowing (strlen string) m (λ len. Assigns string len m m' × (r ≡ string));
}

-- Aliases.
unfoldable pub builtin_strcmp : Ptr → Ptr → Query ℤ
builtin_strcmp = strcmp

unfoldable pub builtin_strncmp : Ptr → Ptr → ℕ → Query ℤ
builtin_strncmp = strncmp

unfoldable pub builtin_strchr : Ptr → ℤ → Query Ptr
builtin_strchr = strchr
