-- ===== src/Stub/Ctype.antt =====
-- The tests and conversions of characters of share/mopsa/stubs/c/libc/ctype.c. The locale is not
-- read. `eof` is EOF.
use mathlib.Core.Path.{◌≡◌}
use mopsa_ocaml.Prelude.{ℕ, ℤ, pos, ◌≤◌, ◌⊎◌}
use mopsa_ocaml.Math.Floats.{Function}

module _ (eof : ℤ) where
  -- `c == EOF or c in [0,255]`.
  abbrev pub IsChar : ℤ → Type 0
  IsChar c = (c ≡ eof) ⊎ ((n : ℕ) × (n ≤ 255) × (c ≡ pos n))

  unfoldable pub isalnum : ℤ → Function ℤ
  isalnum c = record { requires = IsChar c; ensures = λ r. Unit }

  unfoldable pub isalpha : ℤ → Function ℤ
  isalpha c = record { requires = IsChar c; ensures = λ r. Unit }

  unfoldable pub iscntrl : ℤ → Function ℤ
  iscntrl c = record { requires = IsChar c; ensures = λ r. Unit }

  unfoldable pub isdigit : ℤ → Function ℤ
  isdigit c = record { requires = IsChar c; ensures = λ r. Unit }

  unfoldable pub islower : ℤ → Function ℤ
  islower c = record { requires = IsChar c; ensures = λ r. Unit }

  unfoldable pub isgraph : ℤ → Function ℤ
  isgraph c = record { requires = IsChar c; ensures = λ r. Unit }

  unfoldable pub isprint : ℤ → Function ℤ
  isprint c = record { requires = IsChar c; ensures = λ r. Unit }

  unfoldable pub ispunct : ℤ → Function ℤ
  ispunct c = record { requires = IsChar c; ensures = λ r. Unit }

  unfoldable pub isspace : ℤ → Function ℤ
  isspace c = record { requires = IsChar c; ensures = λ r. Unit }

  unfoldable pub isupper : ℤ → Function ℤ
  isupper c = record { requires = IsChar c; ensures = λ r. Unit }

  unfoldable pub isxdigit : ℤ → Function ℤ
  isxdigit c = record { requires = IsChar c; ensures = λ r. Unit }

  unfoldable pub tolower : ℤ → Function ℤ
  tolower c = record { requires = IsChar c; ensures = IsChar }

  unfoldable pub toupper : ℤ → Function ℤ
  toupper c = record { requires = IsChar c; ensures = IsChar }

  unfoldable pub isblank : ℤ → Function ℤ
  isblank c = record { requires = IsChar c; ensures = λ r. Unit }

  unfoldable pub isascii : ℤ → Function ℤ
  isascii c = record { requires = IsChar c; ensures = λ r. Unit }

  unfoldable pub toascii : ℤ → Function ℤ
  toascii c = record { requires = Unit; ensures = λ r. (n : ℕ) × (n ≤ 127) × (r ≡ pos n) }

  -- _toupper and _tolower.
  unfoldable pub macro_toupper : ℤ → Function ℤ
  macro_toupper c = record { requires = IsChar c; ensures = IsChar }

  unfoldable pub macro_tolower : ℤ → Function ℤ
  macro_tolower c = record { requires = IsChar c; ensures = IsChar }

  unfoldable pub isalnum_l : ℤ → Function ℤ
  isalnum_l c = record { requires = IsChar c; ensures = λ r. Unit }

  unfoldable pub isalpha_l : ℤ → Function ℤ
  isalpha_l c = record { requires = IsChar c; ensures = λ r. Unit }

  unfoldable pub iscntrl_l : ℤ → Function ℤ
  iscntrl_l c = record { requires = IsChar c; ensures = λ r. Unit }

  unfoldable pub isdigit_l : ℤ → Function ℤ
  isdigit_l c = record { requires = IsChar c; ensures = λ r. Unit }

  unfoldable pub islower_l : ℤ → Function ℤ
  islower_l c = record { requires = IsChar c; ensures = λ r. Unit }

  unfoldable pub isgraph_l : ℤ → Function ℤ
  isgraph_l c = record { requires = IsChar c; ensures = λ r. Unit }

  unfoldable pub isprint_l : ℤ → Function ℤ
  isprint_l c = record { requires = IsChar c; ensures = λ r. Unit }

  unfoldable pub ispunct_l : ℤ → Function ℤ
  ispunct_l c = record { requires = IsChar c; ensures = λ r. Unit }

  unfoldable pub isspace_l : ℤ → Function ℤ
  isspace_l c = record { requires = IsChar c; ensures = λ r. Unit }

  unfoldable pub isupper_l : ℤ → Function ℤ
  isupper_l c = record { requires = IsChar c; ensures = λ r. Unit }

  unfoldable pub isxdigit_l : ℤ → Function ℤ
  isxdigit_l c = record { requires = IsChar c; ensures = λ r. Unit }

  unfoldable pub isblank_l : ℤ → Function ℤ
  isblank_l c = record { requires = IsChar c; ensures = λ r. Unit }

  -- __tolower_l and __toupper_l.
  unfoldable pub builtin_tolower_l : ℤ → Function ℤ
  builtin_tolower_l c = record { requires = IsChar c; ensures = IsChar }

  unfoldable pub builtin_toupper_l : ℤ → Function ℤ
  builtin_toupper_l c = record { requires = IsChar c; ensures = IsChar }

  unfoldable pub tolower_l : ℤ → Function ℤ
  tolower_l c = record { requires = IsChar c; ensures = IsChar }

  unfoldable pub toupper_l : ℤ → Function ℤ
  toupper_l c = record { requires = IsChar c; ensures = IsChar }
