-- ===== src/Float/Fpu.antt =====
-- The floating-point unit that utils/itvUtils/floats_round.c drives: the processor and the C library
-- are parameters, the rounding mode is the state.
use mopsa_ocaml.Prelude.{◌≡◌, Bool, true, false, ◌||◌, if◌then◌else◌}

-- The rounding mode that ROUND_NEAR, ROUND_UP, ROUND_DOWN and ROUND_ZERO select.
pub data Mode : Type 0 where
  near up down toward_zero : Mode

-- A float format: C's comparisons and operators, and the functions of math.h that the code calls.
-- An operation that rounds takes the mode in force. `sign_bit` tells -0 from 0; the code does not
-- read it, and the laws of division do.
pub record Format (F : Type 0) : Type 0 where
  pub le : F → F → Bool
  pub is_nan : F → Bool
  pub is_inf : F → Bool
  pub is_zero : F → Bool
  pub sign_bit : F → Bool
  pub nought : F
  pub inf : F
  pub minf : F
  pub neg : F → F
  pub add : Mode → F → F → F
  pub sub : Mode → F → F → F
  pub mul : Mode → F → F → F
  pub div : Mode → F → F → F
  pub fmin : F → F → F
  pub fmax : F → F → F

-- C's `<=`, false on NaN.
infix 4 ◌≼◌
abbrev pub ◌≼◌ : {F : Type 0} ⦃f : Format F⦄ → F → F → Type 0
◌≼◌ ⦃f⦄ a b = f.le a b ≡ true

-- Not NaN.
abbrev pub IsNum : {F : Type 0} ⦃f : Format F⦄ → F → Type 0
IsNum ⦃f⦄ a = f.is_nan a ≡ false

-- C's casts between the formats: `(float)` rounds, the conversion back is exact.
pub record Casts (D S : Type 0) : Type 0 where
  pub to_sgl : Mode → D → S
  pub of_sgl : S → D

-- A C function reads and writes the rounding mode.
abbrev pub M : Type 0 → Type 0
M A = Mode → A × Mode

abbrev pub pure : {A : Type 0} → A → M A
pure a m = (a, m)

infixl 5 ◌>>=◌ ◌>>◌
abbrev pub ◌>>=◌ : {A B : Type 0} → M A → (A → M B) → M B
◌>>=◌ p f m = f (p m).0 (p m).1

abbrev pub ◌>>◌ : {B : Type 0} → M (Unit {0}) → M B → M B
◌>>◌ p k m = k (p m).1

-- ROUND_NEAR, ROUND_UP, ROUND_DOWN and ROUND_ZERO.
abbrev pub round : Mode → M (Unit {0})
round m _ = (tt, m)

-- An operation in the mode in force.
abbrev pub in_mode : {A B : Type 0} → (Mode → A → B) → A → M B
in_mode op a m = (op m a, m)

abbrev pub in_mode₂ : {A B C : Type 0} → (Mode → A → B → C) → A → B → M C
in_mode₂ op a b m = (op m a b, m)

module _ {F : Type 0} ⦃f : Format F⦄ where
  open f use {is_zero, is_inf, nought, mul, div}

  -- MUL: a product in which 0 * infinity is 0.
  unfoldable pub mulz : Mode → F → F → F
  mulz m a b = if is_zero a || is_zero b then nought else mul m a b

  -- DIV: a quotient in which 0 / 0 and infinity / infinity are 0.
  unfoldable pub divz : Mode → F → F → F
  divz m a b = if is_zero a || is_inf b then nought else div m a b

  -- The operators, in the mode in force.
  abbrev pub fadd : F → F → M F
  fadd = in_mode₂ f.add

  abbrev pub fsub : F → F → M F
  fsub = in_mode₂ f.sub

  abbrev pub fmul : F → F → M F
  fmul = in_mode₂ f.mul

  abbrev pub fdiv : F → F → M F
  fdiv = in_mode₂ f.div

  abbrev pub fmulz : F → F → M F
  fmulz = in_mode₂ mulz

  abbrev pub fdivz : F → F → M F
  fdivz = in_mode₂ divz

-- `(float)a`, in the mode in force.
abbrev pub single : {D S : Type 0} → Casts D S → D → M S
single c = in_mode c.to_sgl
