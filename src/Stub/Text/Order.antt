-- ===== src/Stub/Text/Order.antt =====
-- The stubs of share/mopsa/stubs/c/libc/string.c and strings.c that compare strings by case, by
-- locale or by version, of whose order the contracts say nothing, and the search and the mode string
-- of bsd/string.c.
use mopsa_ocaml.Prelude.{ℕ, ℤ, pos, negsuc, ◌+◌, ◌-◌, ◌<◌, ◌≤◌, ◌≡◌, ◌⊎◌}
use mopsa_ocaml.Stub.Memory.{
  Ptr, null, at, Memory, byte, ValidPtr, ValidBytes, ValidString, InBytes, NoOverlap,
}
use mopsa_ocaml.Stub.Contract.{Query, Action, Knowing, Assigns}
use mopsa_ocaml.Stub.Text.Length.{strlen}

unfoldable pub strcoll_l : Ptr → Ptr → Query ℤ
strcoll_l s1 s2 = record {
  requires = λ m. ValidString m s1 × ValidString m s2;
  returns = λ m r. Unit;
}

unfoldable pub strverscmp : Ptr → Ptr → Query ℤ
strverscmp s1 s2 = record {
  requires = λ m. ValidString m s1 × ValidString m s2;
  returns = λ m r. Unit;
}

unfoldable pub strxfrm_l : Ptr → Ptr → ℕ → Action ℕ
strxfrm_l dest src n = record {
  requires = λ m. ValidString m src × ValidBytes m dest n × NoOverlap src n dest n;
  ensures = λ m r m'. Assigns dest n m m' × (r < n → byte m' dest r ≡ 0);
}

-- `size(s) < offset(s) + n`, for a pointer to bytes into its block.
abbrev pub IsShorter : Memory → Ptr → ℕ → Type 0
IsShorter m (at b (pos o)) n = m.size b < o + n
IsShorter m _ n = ⊥

unfoldable pub strcasecmp : Ptr → Ptr → Query ℤ
strcasecmp s1 s2 = record {
  requires = λ m. ValidString m s1 × ValidString m s2;
  returns = λ m r. Unit;
}

unfoldable pub strcasecmp_l : Ptr → Ptr → Query ℤ
strcasecmp_l s1 s2 = record {
  requires = λ m. ValidString m s1 × ValidString m s2;
  returns = λ m r. Unit;
}

unfoldable pub strncasecmp : Ptr → Ptr → ℕ → Query ℤ
strncasecmp s1 s2 n = record {
  requires = λ m.
      ValidPtr m s1
      × ValidPtr m s2
      × (IsShorter m s1 n → ValidString m s1)
      × (IsShorter m s2 n → ValidString m s2);
  returns = λ m r. Unit;
}

unfoldable pub strncasecmp_l : Ptr → Ptr → ℕ → Query ℤ
strncasecmp_l s1 s2 n = record {
  requires = λ m.
      ValidPtr m s1
      × ValidPtr m s2
      × (IsShorter m s1 n → ValidString m s1)
      × (IsShorter m s2 n → ValidString m s2);
  returns = λ m r. Unit;
}

-- The place of the lowest bit set, of 32 and of 64.
abbrev AtMost : ℕ → ℤ → Type 0
AtMost bound (pos n) = n ≤ bound
AtMost bound (negsuc n) = ⊥

unfoldable pub ffs : ℤ → Query ℤ
ffs i = record { requires = λ m. Unit; returns = λ m r. AtMost 32 r }

unfoldable pub ffsl : ℤ → Query ℤ
ffsl l = record { requires = λ m. Unit; returns = λ m r. AtMost 64 r }

unfoldable pub strnstr : Ptr → Ptr → ℕ → Query Ptr
strnstr str find str_len = record {
  requires = λ m. (strlen str).requires m × (strlen find).requires m;
  returns = λ m r. Knowing (strlen str) m λ len1. Knowing (strlen find) m λ len2.
      ((len1 < str_len) × ((r ≡ null) ⊎ ((len2 ≤ len1) × InBytes r str (len1 - len2))))
      ⊎ ((str_len ≤ len1) × ((r ≡ null) ⊎ ((len2 ≤ str_len) × InBytes r str (str_len - len2))));
}

-- The mode is not read.
unfoldable pub strmode : Ptr → Action (Unit {0})
strmode str = record {
  requires = λ m. ValidBytes m str 12;
  ensures = λ m r m'. Assigns str 12 m m' × (byte m' str 11 ≡ 0);
}
