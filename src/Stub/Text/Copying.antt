-- ===== src/Stub/Text/Copying.antt =====
-- The copying stubs of share/mopsa/stubs/c/libc/string.c and bsd/string.c. A comparison of two
-- characters is one of their bytes.
use Prim.Native.Nat.{◌^◌}
use mopsa_ocaml.Prelude.{ℕ, ◌+◌, ◌-◌, ◌<◌, ◌≤◌, ◌≡◌, ◌⊎◌}
use mopsa_ocaml.Stub.Memory.{
  Ptr, null, at, pos, Memory, byte, shift, Forall, ValidBytes, ValidString, NoOverlap,
}
use mopsa_ocaml.Stub.Contract.{Action, Requiring, Knowing, Assigns, AssignsErrno, NewMemory}
use mopsa_ocaml.Stub.Text.Length.{strlen, strnlen}

unfoldable pub strcpy : Ptr → Ptr → Action Ptr
strcpy dest src = record {
  requires = λ m.
      Requiring (strlen src) m
        λ src_len. NoOverlap src (src_len + 1) dest (src_len + 1) × ValidBytes m dest (src_len + 1);
  ensures = λ m r m'. Knowing (strlen src) m λ src_len.
      Assigns dest (src_len + 1) m m'
      × Forall 0 (src_len + 1) (λ i. byte m' dest i ≡ byte m src i)
      × (r ≡ dest);
}

unfoldable pub strncpy : Ptr → Ptr → ℕ → Action Ptr
strncpy dest src len = record {
  requires = λ m.
      (ValidBytes m src len ⊎ ValidString m src)
      × ValidBytes m dest len
      × Requiring (strnlen src len) m (λ src_len. NoOverlap src src_len dest src_len);
  ensures = λ m r m'. Knowing (strnlen src len) m λ src_len.
      Assigns dest len m m'
      × Forall 0 src_len (λ i. byte m' dest i ≡ byte m src i)
      × Forall src_len len (λ i. byte m' dest i ≡ 0)
      × (r ≡ dest);
}

unfoldable pub strcat : Ptr → Ptr → Action Ptr
strcat dest src = record {
  requires = λ m. Requiring (strlen src) m λ src_len. Requiring (strlen dest) m λ dest_len.
      NoOverlap src (src_len + 1) dest (dest_len + src_len + 1)
      × ValidBytes m dest (dest_len + src_len + 1);
  ensures = λ m r m'. Knowing (strlen src) m λ src_len. Knowing (strlen dest) m λ dest_len.
      Assigns dest (dest_len + src_len + 1) m m'
      × Forall 0 dest_len (λ i. byte m' dest i ≡ byte m dest i)
      × Forall 0 (src_len + 1) (λ i. byte m' dest (dest_len + i) ≡ byte m src i)
      × (r ≡ dest);
}

unfoldable pub strncat : Ptr → Ptr → ℕ → Action Ptr
strncat dest src len = record {
  requires = λ m. Requiring (strnlen src len) m λ src_nlen. Requiring (strlen dest) m λ dest_len.
      NoOverlap src (src_nlen + 1) dest (dest_len + src_nlen + 1)
      × ValidBytes m dest (dest_len + src_nlen + 1);
  ensures = λ m r m'. Knowing (strnlen src len) m λ src_nlen. Knowing (strlen dest) m λ dest_len.
      Assigns dest (dest_len + src_nlen + 1) m m'
      × Forall 0 dest_len (λ i. byte m' dest i ≡ byte m dest i)
      × Forall 0 src_nlen (λ i. byte m' dest (dest_len + i) ≡ byte m src i)
      × (byte m' dest (dest_len + src_nlen) ≡ 0)
      × (r ≡ dest);
}

unfoldable pub stpcpy : Ptr → Ptr → Action Ptr
stpcpy dest src = record {
  requires = λ m.
      Requiring (strlen src) m
        λ src_len. NoOverlap src (src_len + 1) dest (src_len + 1) × ValidBytes m dest (src_len + 1);
  ensures = λ m r m'. Knowing (strlen src) m λ src_len.
      Assigns dest (src_len + 1) m m'
      × Forall 0 (src_len + 1) (λ i. byte m' dest i ≡ byte m src i)
      × (r ≡ shift dest src_len);
}

unfoldable pub stpncpy : Ptr → Ptr → ℕ → Action Ptr
stpncpy dest src n = record {
  requires = λ m.
      (ValidBytes m src n ⊎ ValidString m src) × ValidBytes m dest n × (strnlen src n).requires m;
  ensures = λ m r m'. Knowing (strnlen src n) m λ src_len.
      Assigns dest n m m'
      × Forall 0 src_len (λ i. byte m' dest i ≡ byte m src i)
      × Forall src_len n (λ i. byte m' dest i ≡ 0)
      × (r ≡ shift dest src_len);
}

-- `return == NULL` with `assigns: _errno;`.
abbrev pub Failed : Ptr → Memory → Memory → Type 0
Failed r m m' = AssignsErrno m m' × (r ≡ null)

unfoldable pub strdup : Ptr → Action Ptr
strdup s = record {
  requires = λ m. (strlen s).requires m;
  ensures = λ m r m'. Knowing (strlen s) m λ len.
      ((b : ℕ) × NewMemory b m m'
        × (r ≡ at b (pos 0))
        × (m'.size b ≡ len + 1)
        × Forall 0 (len + 1) (λ i. m'.cell b i ≡ byte m s i))
      ⊎ Failed r m m';
}

-- The bound is `cast(size_t, -1)`, the largest `size_t`.
abbrev pub size_max : ℕ
size_max = 2 ^ 64 - 1

unfoldable pub strndup : Ptr → ℕ → Action Ptr
strndup s n = record {
  requires = λ m. Requiring (strnlen s n) m (λ len. len < size_max);
  ensures = λ m r m'. Knowing (strnlen s n) m λ len.
      ((b : ℕ) × NewMemory b m m'
        × (m'.size b ≡ len + 1)
        × Forall 0 len (λ i. m'.cell b i ≡ byte m s i)
        × (m'.cell b len ≡ 0)
        × (r ≡ at b (pos 0)))
      ⊎ Failed r m m';
}

-- bsd/string.c
unfoldable pub strlcpy : Ptr → Ptr → ℕ → Action ℕ
strlcpy dst src size = record {
  requires = λ m. ValidBytes m dst size × (0 < size) × (strlen src).requires m;
  ensures = λ m r m'. Knowing (strlen src) m λ src_len.
      (r ≡ src_len)
      × ((src_len < size)
            × Assigns dst (src_len + 1) m m'
            × Forall 0 (src_len + 1) (λ i. byte m' dst i ≡ byte m src i)
          ⊎ (size ≤ src_len)
            × Assigns dst size m m'
            × Forall 0 (size - 1) (λ i. byte m' dst i ≡ byte m src i)
            × (byte m' dst (size - 1) ≡ 0));
}

unfoldable pub strlcat : Ptr → Ptr → ℕ → Action ℕ
strlcat dst src size = record {
  requires =
      λ m. ValidBytes m dst size × (0 < size) × (strlen src).requires m × (strlen dst).requires m;
  ensures = λ m r m'. Knowing (strlen src) m λ src_len. Knowing (strlen dst) m λ dst_len.
      (r ≡ src_len + dst_len)
      × (((src_len + dst_len < size)
            × Assigns dst size m m'
            × Forall 0 dst_len (λ i. byte m' dst i ≡ byte m dst i)
            × Forall 0 (src_len + 1) (λ i. byte m' dst (dst_len + i) ≡ byte m src i))
          ⊎ ((dst_len < size)
              × (size ≤ src_len + dst_len)
              × Assigns dst size m m'
              × Forall 0 dst_len (λ i. byte m' dst i ≡ byte m dst i)
              × Forall 0 (size - dst_len - 1) (λ i. byte m' dst (dst_len + i) ≡ byte m src i)
              × (byte m' dst (size - 1) ≡ 0))
          ⊎ ((size ≤ dst_len) × (m' ≡ m)));
}
