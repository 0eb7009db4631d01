-- ===== src/Float/Laws.antt =====
-- What utils/itvUtils/floats_round.c relies on: the documented behaviour (IEEE 754, math.h) of the
-- processor's arithmetic under each rounding mode, for results that are not NaN.
use mopsa_ocaml.Prelude.{◌≡◌, true, false, ◌⊎◌}
use mopsa_ocaml.Float.Fpu.{Format, Casts, Mode, up, down, ◌≼◌, IsNum}

module _ {F : Type 0} ⦃f : Format F⦄ where
  open f use {sign_bit, nought}

  -- A positive divisor: not below zero, and not -0.
  pub record IsPos (a : F) : Type 0 where
    pub nonneg : nought ≼ a
    pub plus : sign_bit a ≡ false

  -- The four modes agree on NaN; down and up give the least and the greatest result.
  pub record IsRounded (op : Mode → F → F → F) : Type 0 where
    pub same_num : (m n : Mode) (a b : F) → IsNum (op m a b) → IsNum (op n a b)
    pub down-le : (m : Mode) (a b : F) → IsNum (op m a b) → op down a b ≼ op m a b
    pub le-up : (m : Mode) (a b : F) → IsNum (op m a b) → op m a b ≼ op up a b

module _ (F : Type 0) ⦃f : Format F⦄ where
  open f use {is_zero, is_inf, nought, inf, minf, neg, add, sub, mul, div, fmin, fmax}

  pub record IsOrdered : Type 0 where
    pub le_refl : (a : F) → IsNum a → a ≼ a
    pub le_num : (a b : F) → a ≼ b → IsNum a × IsNum b
    pub le_trans : (a b c : F) → a ≼ b → b ≼ c → a ≼ c
    pub le_total : (a b : F) → IsNum a → IsNum b → (a ≼ b) ⊎ (b ≼ a)
    pub minf_le : (a : F) → IsNum a → minf ≼ a
    pub le_inf : (a : F) → IsNum a → a ≼ inf
    pub zero_le : (a : F) → is_zero a ≡ true → (a ≼ nought) × (nought ≼ a)
    pub zero_of_le : (a : F) → a ≼ nought → nought ≼ a → is_zero a ≡ true
    pub inf_of_le : (a b : F) → is_inf a ≡ true → nought ≼ a → a ≼ b → is_inf b ≡ true
    pub nought_num : IsNum nought
    pub neg_num : (a : F) → IsNum a → IsNum (neg a)
    pub neg-neg : (a : F) → IsNum a → neg (neg a) ≡ a
    pub neg_anti : (a b : F) → a ≼ b → neg b ≼ neg a
    pub neg_nought : (neg nought ≼ nought) × (nought ≼ neg nought)
    pub neg_zero : (a : F) → IsNum a → is_zero (neg a) ≡ is_zero a
    pub fmin_le : (a b : F) → IsNum a → IsNum b → (fmin a b ≼ a) × (fmin a b ≼ b)
    pub le_fmax : (a b : F) → IsNum a → IsNum b → (a ≼ fmax a b) × (b ≼ fmax a b)

  pub record IsAddition : Type 0 where
    pub add_rounded : IsRounded add
    pub add_mono :
        (m : Mode) (a a' b b' : F)
        → a ≼ a'
        → b ≼ b'
        → IsNum (add m a b)
        → IsNum (add m a' b')
        → add m a b ≼ add m a' b'
    pub neg-sub :
        (a b : F)
        → IsNum (neg (sub up (neg a) b)) ⊎ IsNum (add down a b)
        → neg (sub up (neg a) b) ≡ add down a b
    pub sub_rounded : IsRounded sub
    pub sub_mono :
        (m : Mode) (a a' b b' : F)
        → a ≼ a'
        → b' ≼ b
        → IsNum (sub m a b)
        → IsNum (sub m a' b')
        → sub m a b ≼ sub m a' b'
    pub neg-add :
        (a b : F)
        → IsNum (neg (add up (neg a) b)) ⊎ IsNum (sub down a b)
        → neg (add up (neg a) b) ≡ sub down a b

  pub record IsMultiplication : Type 0 where
    pub mul_rounded : IsRounded mul
    pub mul_num :
        (m : Mode) (a b : F)
        → IsNum a
        → IsNum b
        → is_zero a ≡ false
        → is_zero b ≡ false
        → IsNum (mul m a b)
    pub mul_comm : (m : Mode) (a b : F) → IsNum (mul m a b) → mul m a b ≡ mul m b a
    pub mul_mono :
        (m : Mode) (a a' b : F)
        → a ≼ a'
        → nought ≼ b
        → IsNum (mul m a b)
        → IsNum (mul m a' b)
        → mul m a b ≼ mul m a' b
    pub mul_anti :
        (m : Mode) (a a' b : F)
        → a ≼ a'
        → b ≼ nought
        → IsNum (mul m a b)
        → IsNum (mul m a' b)
        → mul m a' b ≼ mul m a b
    pub mul_nonneg :
        (m : Mode) (a b : F) → nought ≼ a → nought ≼ b → IsNum (mul m a b) → nought ≼ mul m a b
    pub mul_nonpos :
        (m : Mode) (a b : F) → a ≼ nought → nought ≼ b → IsNum (mul m a b) → mul m a b ≼ nought
    pub mul_nonpos_nonpos :
        (m : Mode) (a b : F) → a ≼ nought → b ≼ nought → IsNum (mul m a b) → nought ≼ mul m a b
    pub mul_zero :
        (m : Mode) (a b : F)
        → is_zero a ≡ true
        → IsNum (mul m a b)
        → (mul m a b ≼ nought) × (nought ≼ mul m a b)
    pub neg-mul :
        (a b : F)
        → IsNum (neg (mul up (neg a) b)) ⊎ IsNum (mul down a b)
        → neg (mul up (neg a) b) ≡ mul down a b

  pub record IsDivision : Type 0 where
    pub div_rounded : IsRounded div
    pub div_num :
        (m : Mode) (a b : F)
        → IsNum a
        → is_zero a ≡ false
        → IsPos b
        → is_inf b ≡ false
        → IsNum (div m a b)
    pub div_mono :
        (m : Mode) (a a' b : F)
        → a ≼ a'
        → IsPos b
        → IsNum (div m a b)
        → IsNum (div m a' b)
        → div m a b ≼ div m a' b
    pub div_anti :
        (m : Mode) (a b b' : F)
        → nought ≼ a
        → IsPos b
        → b ≼ b'
        → IsNum (div m a b)
        → IsNum (div m a b')
        → div m a b' ≼ div m a b
    pub div_anti_nonpos :
        (m : Mode) (a b b' : F)
        → a ≼ nought
        → IsPos b
        → b ≼ b'
        → IsNum (div m a b)
        → IsNum (div m a b')
        → div m a b ≼ div m a b'
    pub div_nonneg :
        (m : Mode) (a b : F) → nought ≼ a → IsPos b → IsNum (div m a b) → nought ≼ div m a b
    pub div_nonpos :
        (m : Mode) (a b : F) → a ≼ nought → IsPos b → IsNum (div m a b) → div m a b ≼ nought
    pub div_zero :
        (m : Mode) (a b : F)
        → (is_zero a ≡ true) ⊎ (is_inf b ≡ true)
        → IsNum (div m a b)
        → (div m a b ≼ nought) × (nought ≼ div m a b)
    pub neg-div :
        (a b : F)
        → IsNum (neg (div up (neg a) b)) ⊎ IsNum (div down a b)
        → neg (div up (neg a) b) ≡ div down a b

-- The conversion to `double` is exact, and `(float)` gives a converted `float` back in every mode.
module _ {D S : Type 0} ⦃d : Format D⦄ ⦃s : Format S⦄ (c : Casts D S) where
  open c use {to_sgl, of_sgl}

  pub record IsExact : Type 0 where
    pub to_sgl-of_sgl : (m : Mode) (v : S) → to_sgl m (of_sgl v) ≡ v
    pub of_sgl_mono : (v w : S) → v ≼ w → of_sgl v ≼ of_sgl w
    pub of_sgl-neg : (v : S) → IsNum v → of_sgl (s.neg v) ≡ d.neg (of_sgl v)
    pub of_sgl_num : (v : S) → IsNum v → IsNum (of_sgl v)
    pub num_of_sgl : (v : S) → IsNum (of_sgl v) → IsNum v
