-- ===== src/Float/Math.antt =====
-- The functions of math.h, the conversions and the integers of OCaml's runtime that
-- utils/itvUtils/floats_round.c uses, as parameters.
use mopsa_ocaml.Prelude.{ℕ, ℤ, negsuc}
use mopsa_ocaml.Float.Fpu.{Format, Mode, ◌≼◌}

-- The functions on a float format; rint also stands for rintf, and so on. `llrint` is lrint too,
-- where `long` has 64 bits; `truncate` is the cast to int64_t, `of_int` the cast from it.
pub record Math (F : Type 0) : Type 0 where
  pub fmod : F → F → F
  pub sqrt : Mode → F → F
  pub rint : Mode → F → F
  pub llrint : Mode → F → ℤ
  pub truncate : F → ℤ
  pub of_int : Mode → ℤ → F
  pub pow10 : Mode → ℤ → F

-- OCaml's values: boxed 64-bit integers, and tagged ones.
pub record Runtime (V : Type 0) : Type 0 where
  pub int64_val : V → ℤ
  pub copy_int64 : ℤ → V
  pub long_val : V → ℤ
  pub val_long : ℤ → V

-- A negative integer converts to a float that is not above zero.
pub record IsSigned {F : Type 0} ⦃f : Format F⦄ (h : Math F) : Type 0 where
  pub of_int_nonpos : (m : Mode) (n : ℕ) → h.of_int m (negsuc n) ≼ f.nought
