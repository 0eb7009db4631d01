-- ===== src/Stub/Wide/Chars.antt =====
-- Wide characters in memory, the predicates of mopsa/mopsa.c on them, and no_overlap_wide of
-- libc/wchar.c. A wchar_t is four bytes, the lowest first, and signed.
use mopsa_ocaml.Prelude.{ℕ, ℤ, pos, negsuc, ◌+◌, ◌-◌, ◌*◌, ◌≤◌, ◌<◌, ◌≡◌, ◌≢◌, ltb, if◌then◌else◌}
use Prim.Native.Nat.{◌/◌}
use mopsa_ocaml.Stub.Memory.{
  Ptr, Memory, byte, shift, room, Forall, Exists, ValidBlock, ValidBytes, NoOverlap,
}

-- `p[i]`, as an unsigned number.
abbrev pub wide : Memory → Ptr → ℕ → ℕ
wide m p i =
    byte m p (4 * i)
    + 256 * byte m p (4 * i + 1)
    + 65536 * byte m p (4 * i + 2)
    + 16777216 * byte m p (4 * i + 3)

abbrev pub to_wchar : ℕ → ℤ
to_wchar n = if ltb n 2147483648 then pos n else negsuc (4294967295 - n)

-- `p[i]`.
abbrev pub wchar : Memory → Ptr → ℕ → ℤ
wchar m p i = to_wchar (wide m p i)

-- `p + i`, for a pointer to wide characters.
abbrev pub shift_wide : Ptr → ℕ → Ptr
shift_wide p i = shift p (4 * i)

-- `(bytes(p) - offset(p)) / sizeof_type(wchar_t)`.
abbrev pub room_wide : Memory → Ptr → ℕ
room_wide m p = room m p / 4

-- `valid_ptr` for a pointer to a wide character.
abbrev pub ValidWide : Memory → Ptr → Type 0
ValidWide m p = ValidBlock m p 4

-- `valid_wchars`.
abbrev pub ValidWchars : Memory → Ptr → ℕ → Type 0
ValidWchars m p n = ValidBytes m p (4 * n)

-- `valid_wide_string`; that `bytes(s) >= 1` follows from the rest.
abbrev pub ValidWideString : Memory → Ptr → Type 0
ValidWideString m s = ValidWide m s × Exists 0 (room_wide m s) (λ i. wide m s i ≡ 0)

-- `valid_wide_substring`.
abbrev pub ValidWideSubstring : Memory → Ptr → ℕ → Type 0
ValidWideSubstring m s n = (0 < n → ValidWide m s) × Exists 0 n (λ i. wide m s i ≡ 0)

-- `in_wide_string(x, s)`.
abbrev pub InWideString : Memory → Ptr → Ptr → Type 0
InWideString m x s =
    Exists 0 (room_wide m s) λ i. (x ≡ shift_wide s i) × Forall 0 i (λ j. wide m s j ≢ 0)

-- `in_wchars(r, x, n)`.
abbrev pub InWchars : Ptr → Ptr → ℕ → Type 0
InWchars r x n = (i : ℕ) × (i ≤ n) × (r ≡ shift_wide x i)

-- `no_overlap_wide(s1, n1, s2, n2)`, which adds the counts to pointers to bytes.
abbrev pub NoOverlapWide : Ptr → ℕ → Ptr → ℕ → Type 0
NoOverlapWide s1 n1 s2 n2 = NoOverlap s1 n1 s2 n2
