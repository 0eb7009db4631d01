-- ===== src/Float/Itv/Mulz.antt =====
-- MUL of utils/itvUtils/floats_round.c: never NaN, monotone or antitone in each operand, and the
-- processor's product wherever that is not NaN.
use mopsa_ocaml.Prelude.{◌≡◌, ◌⊎◌, inl, inr, arith}
use mopsa_ocaml.Float.Fpu.{Format, Mode, up, down, ◌≼◌, IsNum, mulz}
use mopsa_ocaml.Float.Laws.{IsOrdered, IsMultiplication}

module _ {F : Type 0} ⦃f : Format F⦄ (order : IsOrdered F) (laws : IsMultiplication F) where
  open f use {is_zero, nought, neg, mul}
  open order use {
    le_refl, le_num, le_trans, le_total, zero_le, nought_num, neg_num, neg_zero, neg_nought,
  }
  open laws use {
    mul_num, mul_comm, mul_mono, mul_anti, mul_nonneg, mul_nonpos, mul_nonpos_nonpos, mul_zero,
    neg-mul, mul_rounded,
  }

  pub mulz-IsNum : (m : Mode) (a b : F) → IsNum a → IsNum b → IsNum (mulz m a b)
  unfolding mulz
  mulz-IsNum m a b p q = ground (arith, nought_num, mul_num m a b p q)

  pub mulz_comm : (m : Mode) (a b : F) → IsNum a → IsNum b → mulz m a b ≡ mulz m b a
  unfolding mulz
  mulz_comm m a b p q = ground (arith, mul_num m a b p q, mul_comm m a b)

  mulz_mono : (m : Mode) (a a' b : F) → a ≼ a' → nought ≼ b → mulz m a b ≼ mulz m a' b
  unfolding mulz
  mulz_mono m a a' b p q = ground (
    arith,
    le_num _ _ p,
    le_num _ _ q,
    le_refl nought nought_num,
    zero_le a,
    zero_le a',
    le_trans nought a a',
    le_trans a a' nought,
    mul_num m a b,
    mul_num m a' b,
    mul_nonneg m a' b,
    mul_nonpos m a b,
    mul_mono m a a' b p q,
  )

  mulz_anti : (m : Mode) (a a' b : F) → a ≼ a' → b ≼ nought → mulz m a' b ≼ mulz m a b
  unfolding mulz
  mulz_anti m a a' b p q = ground (
    arith,
    le_num _ _ p,
    le_num _ _ q,
    le_refl nought nought_num,
    zero_le a,
    zero_le a',
    le_trans nought a a',
    le_trans a a' nought,
    mul_num m a b,
    mul_num m a' b,
    mul_comm m a' b,
    mul_nonpos m b a',
    mul_nonpos_nonpos m a b,
    mul_anti m a a' b p q,
  )

  -- Between two values of the first operand, the product is below one of theirs.
  pub mulz-le_either :
      (m : Mode) (l h x y : F)
      → IsNum y
      → ((l ≼ x) × (x ≼ h)) ⊎ ((h ≼ x) × (x ≼ l))
      → (mulz m x y ≼ mulz m l y) ⊎ (mulz m x y ≼ mulz m h y)
  mulz-le_either m l h x y num (inl (p, q)) = elim (le_total nought y nought_num num) [
    | inl pos ↦ inr (mulz_mono m x h y q pos)
    | inr nonpos ↦ inl (mulz_anti m l x y p nonpos)
  ]
  mulz-le_either m l h x y num (inr (p, q)) = elim (le_total nought y nought_num num) [
    | inl pos ↦ inl (mulz_mono m x l y q pos)
    | inr nonpos ↦ inr (mulz_anti m h x y p nonpos)
  ]

  -- The same for the second operand.
  pub mulz-le_either_right :
      (m : Mode) (x l h y : F)
      → IsNum x
      → l ≼ y
      → y ≼ h
      → (mulz m x y ≼ mulz m x l) ⊎ (mulz m x y ≼ mulz m x h)
  mulz-le_either_right m x l h y num p q =
      let y_num = (le_num _ _ p).1 in
      ground (
        arith,
        mulz-le_either m l h y x num (inl (p, q)),
        mulz_comm m x y num y_num,
        mulz_comm m x l num (le_num _ _ p).0,
        mulz_comm m x h num (le_num _ _ q).1,
      )

  pub mulz-le_up : (m : Mode) (a b : F) → IsNum a → IsNum b → mulz m a b ≼ mulz up a b
  unfolding mulz
  mulz-le_up m a b p q =
      ground (arith, le_refl nought nought_num, mul_num m a b p q, mul_rounded.le-up m a b)

  mulz_down-le : (m : Mode) (a b : F) → IsNum a → IsNum b → mulz down a b ≼ mulz m a b
  unfolding mulz
  mulz_down-le m a b p q =
      ground (arith, le_refl nought nought_num, mul_num m a b p q, mul_rounded.down-le m a b)

  -- The negated product, rounded up, is a lower bound in every mode.
  pub neg-mulz-le : (m : Mode) (a b : F) → IsNum a → IsNum b → neg (mulz up (neg a) b) ≼ mulz m a b
  neg-mulz-le m a b p q = le_trans _ _ _ below (mulz_down-le m a b p q)
    where
      below : neg (mulz up (neg a) b) ≼ mulz down a b
      below =
          unfold mulz in
          ground (
            arith,
            neg_zero a p,
            neg_nought,
            neg_num a p,
            mul_num up (neg a) b,
            mul_num down a b,
            (λ (num : IsNum (mul up (neg a) b)). neg-mul a b (inl (neg_num _ num))),
            le_refl (mul down a b),
          )

  -- Where the processor's product is not NaN, MUL agrees with it up to the sign of zero.
  pub mul-mulz :
      (m : Mode) (a b : F) → IsNum (mul m a b) → (mul m a b ≼ mulz m a b) × (mulz m a b ≼ mul m a b)
  unfolding mulz
  mul-mulz m a b num =
      ground (arith, le_refl (mul m a b) num, mul_zero m a b, mul_comm m a b num, mul_zero m b a)
