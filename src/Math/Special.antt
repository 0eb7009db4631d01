-- ===== src/Math/Special.antt =====
-- The special functions of libc/math.c. Their contracts speak of the argument again where they
-- mean the result; errno and signgam may change.
use mopsa_ocaml.Prelude.{◌⊎◌}
use mopsa_ocaml.Math.Floats.{Floats, Function, Valid, Infinite}

module _ (F : Floats) where
  unfoldable pub j0 : F.value → Function F.value
  j0 x = record { requires = Valid F x; ensures = λ r. Valid F x ⊎ Infinite F x }

  unfoldable pub j1 : F.value → Function F.value
  j1 x = record { requires = Valid F x; ensures = λ r. Valid F x ⊎ Infinite F x }

  unfoldable pub jn : F.value → Function F.value
  jn x = record { requires = Valid F x; ensures = λ r. Valid F x ⊎ Infinite F x }

  unfoldable pub y0 : F.value → Function F.value
  y0 x = record { requires = Valid F x; ensures = λ r. Valid F x ⊎ Infinite F x }

  unfoldable pub y1 : F.value → Function F.value
  y1 x = record { requires = Valid F x; ensures = λ r. Valid F x ⊎ Infinite F x }

  unfoldable pub yn : F.value → Function F.value
  yn x = record { requires = Valid F x; ensures = λ r. Valid F x ⊎ Infinite F x }

  unfoldable pub erf : F.value → Function F.value
  erf x = record { requires = Valid F x; ensures = λ r. Valid F x }

  unfoldable pub erfc : F.value → Function F.value
  erfc x = record { requires = Valid F x; ensures = λ r. Valid F x }

  unfoldable pub lgamma : F.value → Function F.value
  lgamma x = record { requires = Valid F x; ensures = λ r. Valid F x ⊎ Infinite F x }

  unfoldable pub tgamma : F.value → Function F.value
  tgamma x = record { requires = Valid F x; ensures = λ r. Valid F x ⊎ Infinite F x }

  unfoldable pub lgamma_r : F.value → Function F.value
  lgamma_r x = record { requires = Valid F x; ensures = λ r. Valid F x ⊎ Infinite F x }
