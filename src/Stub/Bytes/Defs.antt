-- ===== src/Stub/Bytes/Defs.antt =====
-- The contracts of the mem* functions of share/mopsa/stubs/c/libc/string.c, and of their synonyms in
-- strings.c. A comparison of two bytes is one of numbers; a byte is promoted to `int` by `pos`.
use mopsa_ocaml.Prelude.{ℕ, ◌+◌, ◌-◌, ◌<◌, ◌≤◌, ◌≡◌, ◌≢◌, ◌⊎◌}
use mopsa_ocaml.Stub.Memory.{
  ℤ, pos, negsuc, Ptr, null, Memory, shift, byte, Forall, Exists, ValidBytes, ValidPtr, room,
  InBytes, NoOverlap,
}
use mopsa_ocaml.Stub.Contract.{Query, Action, Assigns}

-- `forall size_t i in [0, n): (dest[i])' == src[i]`.
abbrev pub Copied : Memory → Ptr → Memory → Ptr → ℕ → Type 0
Copied m src m' dest n = Forall 0 n λ i. byte m' dest i ≡ byte m src i

unfoldable pub memcpy : Ptr → Ptr → ℕ → Action Ptr
memcpy dest src len = record {
  requires = λ m. NoOverlap src len dest len × ValidBytes m src len × ValidBytes m dest len;
  ensures = λ m r m'. Assigns dest len m m' × Copied m src m' dest len × (r ≡ dest);
}

unfoldable pub memmove : Ptr → Ptr → ℕ → Action Ptr
memmove dest src len = record {
  requires = λ m. ValidBytes m src len × ValidBytes m dest len;
  ensures = λ m r m'. Assigns dest len m m' × Copied m src m' dest len × (r ≡ dest);
}

-- The case "notfound" of memccpy, and its case "found".
abbrev pub CopiedAll : Memory → Ptr → Ptr → ℤ → ℕ → Ptr → Memory → Type 0
CopiedAll m dest src c n r m' =
    Forall 0 n (λ i. pos (byte m src i) ≢ c) × Copied m src m' dest n × (r ≡ null)

abbrev pub CopiedUpTo : Memory → Ptr → Ptr → ℤ → ℕ → Ptr → Memory → Type 0
CopiedUpTo m dest src c n r m' =
    Exists 0 n (λ i. pos (byte m src i) ≡ c)
    × Exists 0 n λ i.
      (pos (byte m src i) ≡ c)
      × (pos (byte m' dest i) ≡ c)
      × (r ≡ shift src (i + 1))
      × Forall 0 i (λ j. (pos (byte m src j) ≢ c) × (byte m' dest j ≡ byte m src j))
      × Forall i n (λ j. byte m' dest j ≡ byte m dest j)

unfoldable pub memccpy : Ptr → Ptr → ℤ → ℕ → Action Ptr
memccpy dest src c n = record {
  requires = λ m. NoOverlap src n dest n × ValidBytes m src n × ValidBytes m dest n;
  ensures = λ m r m'.
      Assigns dest n m m' × (CopiedAll m dest src c n r m' ⊎ CopiedUpTo m dest src c n r m');
}

unfoldable pub memset : Ptr → ℤ → ℕ → Action Ptr
memset dest ch len = record {
  requires = λ m. ValidBytes m dest len;
  ensures =
      λ m r m'. Assigns dest len m m' × Forall 0 len (λ i. pos (byte m' dest i) ≡ ch) × (r ≡ dest);
}

abbrev pub Positive : ℤ → Type 0
Positive (pos n) = 0 < n
Positive (negsuc n) = ⊥

abbrev pub Negative : ℤ → Type 0
Negative (pos n) = ⊥
Negative (negsuc n) = Unit

unfoldable pub memcmp : Ptr → Ptr → ℕ → Query ℤ
memcmp s1 s2 n = record {
  requires = λ m. ValidBytes m s1 n × ValidBytes m s2 n;
  returns = λ m r.
      (Forall 0 n (λ i. byte m s1 i ≡ byte m s2 i) × (r ≡ pos 0))
      ⊎ (Exists 0 n (λ i. byte m s1 i ≢ byte m s2 i)
          × Exists 0 n λ i.
            (byte m s1 i ≢ byte m s2 i)
            × Forall 0 i (λ j. byte m s1 j ≡ byte m s2 j)
            × (byte m s2 i < byte m s1 i → Positive r)
            × (byte m s1 i < byte m s2 i → Negative r));
}

-- The cases "found" and "notfound" of memchr and memrchr. The formula that should exclude an
-- occurrence at each `j` reads `s[i]`. `c` is `(unsigned char)__c`.
abbrev pub NoneBetween : Memory → Ptr → ℕ → ℕ → ℕ → ℕ → Type 0
NoneBetween m s c i a b = Forall a b λ j. byte m s i ≢ c

unfoldable pub memchr : Ptr → ℕ → ℕ → Query Ptr
memchr s c n = record {
  requires = λ m. ValidBytes m s n;
  returns = λ m r.
      (Exists 0 n (λ i. byte m s i ≡ c)
        × Exists 0 n (λ i. (byte m s i ≡ c) × NoneBetween m s c i 0 i × (r ≡ shift s i)))
      ⊎ (Forall 0 n (λ i. byte m s i ≢ c) × (r ≡ null));
}

unfoldable pub rawmemchr : Ptr → ℕ → Query Ptr
rawmemchr s c = record {
  requires = λ m. ValidPtr m s × Exists 0 (room m s) (λ i. byte m s i ≡ c);
  returns = λ m r.
      Exists 0 (room m s) (λ i. (byte m s i ≡ c) × NoneBetween m s c i 0 i × (r ≡ shift s i));
}

unfoldable pub memrchr : Ptr → ℕ → ℕ → Query Ptr
memrchr s c n = record {
  requires = λ m. ValidBytes m s n;
  returns = λ m r.
      (Exists 0 n (λ i. byte m s i ≡ c)
        × Exists 0 n (λ i. (byte m s i ≡ c) × NoneBetween m s c i (i + 1) n × (r ≡ shift s i)))
      ⊎ (Forall 0 n (λ i. byte m s i ≢ c) × (r ≡ null));
}

unfoldable pub memmem : Ptr → ℕ → Ptr → ℕ → Query Ptr
memmem haystack haystack_len needle needle_len = record {
  requires = λ m. ValidBytes m haystack haystack_len × ValidBytes m needle needle_len;
  returns = λ m r.
      (r ≡ null) ⊎ (needle_len ≤ haystack_len) × InBytes r haystack (haystack_len - needle_len);
}

unfoldable pub mempcpy : Ptr → Ptr → ℕ → Action Ptr
unfolding memcpy
mempcpy dest src n = record {
  requires = λ m. (memcpy dest src n).requires m;
  ensures = λ m r m'. ((q : Ptr) × (memcpy dest src n).ensures m q m') × (r ≡ shift dest n);
}

unfoldable pub explicit_bzero : Ptr → ℕ → Action (Unit {0})
explicit_bzero s n = record {
  requires = λ m. ValidBytes m s n;
  ensures = λ m _ m'. Assigns s n m m' × Forall 0 n (λ i. byte m' s i ≡ 0);
}

unfoldable pub memfrob : Ptr → ℕ → Action Ptr
memfrob s n = record {
  requires = λ m. ValidBytes m s n;
  ensures = λ m r m'. Assigns s n m m' × (r ≡ s);
}

-- strings.c
unfoldable pub bcmp : Ptr → Ptr → ℕ → Query ℤ
unfolding memcmp
bcmp s1 s2 n = record {
  requires = λ m. (memcmp s1 s2 n).requires m;
  returns = λ m r. (q : ℤ) × (memcmp s1 s2 n).returns m q × (r ≡ q);
}

unfoldable pub bcopy : Ptr → Ptr → ℕ → Action (Unit {0})
unfolding memmove
bcopy src dest n = record {
  requires = λ m. (memmove dest src n).requires m;
  ensures = λ m _ m'. (q : Ptr) × (memmove dest src n).ensures m q m';
}

unfoldable pub bzero : Ptr → ℕ → Action (Unit {0})
bzero s n = record {
  requires = λ m. ValidBytes m s n;
  ensures = λ m _ m'. Assigns s n m m' × Forall 0 n (λ i. byte m' s i ≡ 0);
}

-- An alias.
unfoldable pub builtin_memcpy : Ptr → Ptr → ℕ → Action Ptr
builtin_memcpy = memcpy
