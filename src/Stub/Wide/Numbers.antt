-- ===== src/Stub/Wide/Numbers.antt =====
-- The numeric conversions of share/mopsa/stubs/c/libc/wchar.c and the wide ones of inttypes.c. wcstod
-- and wcstof, which do not list what `__endptr` points to as assigned, are left out.
use mathlib.Core.Path.{◌≡◌}
use mopsa_ocaml.Prelude.{ℤ, ◌+◌, ◌≢◌, ◌⊎◌, Option, none, some}
use mopsa_ocaml.Stub.Memory.{Ptr, Memory, Exists}
use mopsa_ocaml.Stub.Contract.{Knowing, AssignsErrno}
use mopsa_ocaml.Stub.Numbers.{EndPtr, null_end, invalid_end, Conversion, IsBase}
use mopsa_ocaml.Stub.Wide.Chars.{shift_wide, ValidWideString}
use mopsa_ocaml.Stub.Wide.Length.{wcslen}

-- The case "with_endptr", and "without_endptr".
abbrev pub WideEndWithin : Ptr → Memory → EndPtr → Option Ptr → Type 0
WideEndWithin nptr m endptr end =
    ((endptr ≢ null_end)
      × Knowing (wcslen nptr) m (λ len. Exists 0 (len + 1) (λ i. end ≡ some (shift_wide nptr i))))
    ⊎ ((endptr ≡ null_end) × (end ≡ none))

-- The requirements of the two cases and of null_or_valid_ptr.
abbrev pub WideReadable : Ptr → Memory → EndPtr → Type 0
WideReadable nptr m endptr =
    (endptr ≢ invalid_end)
    × (endptr ≢ null_end → (wcslen nptr).requires m)
    × (endptr ≡ null_end → ValidWideString m nptr)

unfoldable pub wcstol : Ptr → ℤ → Conversion ℤ
wcstol nptr b = record {
  requires = λ m endptr. IsBase b × WideReadable nptr m endptr;
  ensures = λ m endptr r end m'. AssignsErrno m m' × WideEndWithin nptr m endptr end;
}

unfoldable pub wcstoul : Ptr → ℤ → Conversion ℤ
wcstoul nptr b = record {
  requires = λ m endptr. IsBase b × WideReadable nptr m endptr;
  ensures = λ m endptr r end m'. AssignsErrno m m' × WideEndWithin nptr m endptr end;
}

unfoldable pub wcstoll : Ptr → ℤ → Conversion ℤ
wcstoll nptr b = record {
  requires = λ m endptr. IsBase b × WideReadable nptr m endptr;
  ensures = λ m endptr r end m'. AssignsErrno m m' × WideEndWithin nptr m endptr end;
}

unfoldable pub wcstoull : Ptr → ℤ → Conversion ℤ
wcstoull nptr b = record {
  requires = λ m endptr. IsBase b × WideReadable nptr m endptr;
  ensures = λ m endptr r end m'. AssignsErrno m m' × WideEndWithin nptr m endptr end;
}

-- Aliases.
unfoldable pub wcstoq : Ptr → ℤ → Conversion ℤ
wcstoq = wcstoll

unfoldable pub wcstouq : Ptr → ℤ → Conversion ℤ
wcstouq = wcstoull

-- The result of the call is passed on.
unfoldable pub wcstol_l : Ptr → ℤ → Conversion ℤ
wcstol_l nptr b = wcstol nptr b

unfoldable pub wcstoul_l : Ptr → ℤ → Conversion ℤ
wcstoul_l nptr b = wcstoul nptr b

unfoldable pub wcstoll_l : Ptr → ℤ → Conversion ℤ
wcstoll_l nptr b = wcstoll nptr b

unfoldable pub wcstoull_l : Ptr → ℤ → Conversion ℤ
wcstoull_l nptr b = wcstoull nptr b

-- intmax_t and uintmax_t are not told apart.
unfoldable pub wcstoimax : Ptr → ℤ → Conversion ℤ
wcstoimax nptr b = record {
  requires = λ m endptr. IsBase b × WideReadable nptr m endptr;
  ensures = λ m endptr r end m'. AssignsErrno m m' × WideEndWithin nptr m endptr end;
}

unfoldable pub wcstoumax : Ptr → ℤ → Conversion ℤ
wcstoumax nptr b = record {
  requires = λ m endptr. IsBase b × WideReadable nptr m endptr;
  ensures = λ m endptr r end m'. AssignsErrno m m' × WideEndWithin nptr m endptr end;
}

-- Floats of any type.
module _ {F : Type 0} where
  unfoldable pub wcstold : Ptr → Conversion F
  wcstold nptr = record {
    requires = WideReadable nptr;
    ensures = λ m endptr r end m'. AssignsErrno m m' × WideEndWithin nptr m endptr end;
  }

  unfoldable pub wcstold_l : Ptr → Conversion F
  wcstold_l nptr = wcstold nptr
