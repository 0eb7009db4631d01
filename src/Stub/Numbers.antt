-- ===== src/Stub/Numbers.antt =====
-- The conversions of strings to numbers of share/mopsa/stubs/c/libc/stdlib.c. What `__endptr` points
-- to is a result. The result of the conversion itself is not constrained.
pub mod Ends
pub mod Maxima
pub mod Divide
pub mod Quotients
mod Tests
use mathlib.Core.Path.{◌≡◌}
use mopsa_ocaml.Prelude.{ℕ, ℤ, pos, ◌+◌, ◌≤◌, ◌≢◌, ◌⊎◌, Option, none, some}
use mopsa_ocaml.Stub.Memory.{Ptr, Memory, Exists, shift, ValidBytes, ValidString, ValidSubstring}
use mopsa_ocaml.Stub.Contract.{Query, Knowing, AssignsErrno}
use mopsa_ocaml.Stub.Text.Length.{strlen}

-- `__endptr`: NULL, a pointer that can be written through, or another one.
pub data EndPtr : Type 0 where
  null_end valid_end invalid_end : EndPtr

-- A conversion: its requirements, and how the memory before, the result, what `*__endptr` becomes and
-- the memory after are related.
pub record Conversion (R : Type 0) : Type 1 where
  pub requires : Memory → EndPtr → Type 0
  pub ensures : Memory → EndPtr → R → Option Ptr → Memory → Type 0

-- The case "with_endptr", and "without_endptr".
abbrev pub EndWithin : Ptr → Memory → EndPtr → Option Ptr → Type 0
EndWithin nptr m endptr end =
    ((endptr ≢ null_end)
      × Knowing (strlen nptr) m (λ len. Exists 0 (len + 1) (λ i. end ≡ some (shift nptr i))))
    ⊎ ((endptr ≡ null_end) × (end ≡ none))

-- The requirements of the two cases and of null_or_valid_ptr.
abbrev pub Readable : Ptr → Memory → EndPtr → Type 0
Readable nptr m endptr =
    (endptr ≢ invalid_end)
    × (endptr ≢ null_end → (strlen nptr).requires m)
    × (endptr ≡ null_end → ValidString m nptr)

abbrev pub IsBase : ℤ → Type 0
IsBase b = (b ≡ pos 0) ⊎ ((n : ℕ) × (2 ≤ n) × (n ≤ 36) × (b ≡ pos n))

-- The integer types of the results are not told apart.
unfoldable pub strtol : Ptr → ℤ → Conversion ℤ
strtol nptr b = record {
  requires = λ m endptr. IsBase b × Readable nptr m endptr;
  ensures = λ m endptr r end m'. AssignsErrno m m' × EndWithin nptr m endptr end;
}

unfoldable pub strtoul : Ptr → ℤ → Conversion ℤ
strtoul nptr b = record {
  requires = λ m endptr. IsBase b × Readable nptr m endptr;
  ensures = λ m endptr r end m'. AssignsErrno m m' × EndWithin nptr m endptr end;
}

unfoldable pub strtoll : Ptr → ℤ → Conversion ℤ
strtoll nptr b = record {
  requires = λ m endptr. IsBase b × Readable nptr m endptr;
  ensures = λ m endptr r end m'. AssignsErrno m m' × EndWithin nptr m endptr end;
}

unfoldable pub strtoull : Ptr → ℤ → Conversion ℤ
strtoull nptr b = record {
  requires = λ m endptr. IsBase b × Readable nptr m endptr;
  ensures = λ m endptr r end m'. AssignsErrno m m' × EndWithin nptr m endptr end;
}

-- Aliases.
unfoldable pub strtoq : Ptr → ℤ → Conversion ℤ
strtoq = strtoll

unfoldable pub strtouq : Ptr → ℤ → Conversion ℤ
strtouq = strtoull

-- The result of the call is not passed on.
abbrev Discarding : {R S : Type 0} → Conversion R → Conversion S
Discarding {R} c = record {
  requires = c.requires;
  ensures = λ m endptr r end m'. (q : R) × c.ensures m endptr q end m';
}

unfoldable pub strtol_l : Ptr → ℤ → Conversion ℤ
strtol_l nptr b = Discarding (strtol nptr b)

unfoldable pub strtoul_l : Ptr → ℤ → Conversion ℤ
strtoul_l nptr b = Discarding (strtoul nptr b)

unfoldable pub strtoll_l : Ptr → ℤ → Conversion ℤ
strtoll_l nptr b = Discarding (strtoll nptr b)

unfoldable pub strtoull_l : Ptr → ℤ → Conversion ℤ
strtoull_l nptr b = Discarding (strtoull nptr b)

-- Floats of any type.
module _ {F : Type 0} where
  unfoldable pub strtod : Ptr → Conversion F
  strtod nptr = record {
    requires = Readable nptr;
    ensures = λ m endptr r end m'. AssignsErrno m m' × EndWithin nptr m endptr end;
  }

  unfoldable pub strtod_l : Ptr → Conversion F
  strtod_l nptr = record {
    requires = Readable nptr;
    ensures = λ m endptr r end m'. AssignsErrno m m' × EndWithin nptr m endptr end;
  }

  unfoldable pub strtof : Ptr → Conversion F
  strtof nptr = record {
    requires = λ m endptr.
        ValidString m nptr
        × (endptr ≢ invalid_end)
        × (endptr ≢ null_end → (strlen nptr).requires m);
    ensures = λ m endptr r end m'. AssignsErrno m m' × EndWithin nptr m endptr end;
  }

  unfoldable pub strtold : Ptr → Conversion F
  strtold nptr = record {
    requires = Readable nptr;
    ensures = λ m endptr r end m'. AssignsErrno m m' × EndWithin nptr m endptr end;
  }

  unfoldable pub strtof_l : Ptr → Conversion F
  strtof_l nptr = Discarding (strtof nptr)

  unfoldable pub strtold_l : Ptr → Conversion F
  strtold_l nptr = Discarding (strtold nptr)

  unfoldable pub atof : Ptr → Query F
  atof nptr = record { requires = λ m. ValidString m nptr; returns = λ m r. Unit }

unfoldable pub atoi : Ptr → Query ℤ
atoi nptr = record { requires = λ m. ValidString m nptr; returns = λ m r. Unit }

unfoldable pub atol : Ptr → Query ℤ
atol nptr = record { requires = λ m. ValidString m nptr; returns = λ m r. Unit }

unfoldable pub atoll : Ptr → Query ℤ
atoll nptr = record { requires = λ m. ValidString m nptr; returns = λ m r. Unit }

unfoldable pub a64l : Ptr → Query ℤ
a64l s = record { requires = λ m. ValidBytes m s 6 ⊎ ValidSubstring m s 6; returns = λ m r. Unit }
