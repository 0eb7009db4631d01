-- ===== src/Float/Itv/Divz.antt =====
-- DIV of utils/itvUtils/floats_round.c on positive divisors: never NaN, monotone or antitone in each
-- operand, and the processor's quotient wherever that is not NaN.
use mopsa_ocaml.Prelude.{◌⊎◌, inl, inr, arith}
use mopsa_ocaml.Float.Fpu.{Format, Mode, up, down, ◌≼◌, IsNum, divz}
use mopsa_ocaml.Float.Laws.{IsOrdered, IsDivision, IsPos}

module _ {F : Type 0} ⦃f : Format F⦄ (order : IsOrdered F) (laws : IsDivision F) where
  open f use {is_zero, is_inf, nought, neg, div}
  open order use {
    le_refl, le_num, le_trans, le_total, zero_le, nought_num, neg_num, neg_zero, neg_nought,
    inf_of_le,
  }
  open laws use {
    div_num, div_mono, div_anti, div_anti_nonpos, div_nonneg, div_nonpos, div_zero, neg-div,
    div_rounded,
  }

  pub divz-IsNum : (m : Mode) (a b : F) → IsNum a → IsPos b → IsNum (divz m a b)
  unfolding divz
  divz-IsNum m a b p q = ground (arith, nought_num, div_num m a b p)

  divz_mono : (m : Mode) (a a' b : F) → a ≼ a' → IsPos b → divz m a b ≼ divz m a' b
  unfolding divz
  divz_mono m a a' b p q = ground (
    arith,
    le_num _ _ p,
    le_refl nought nought_num,
    zero_le a,
    zero_le a',
    le_trans nought a a',
    le_trans a a' nought,
    div_num m a b,
    div_num m a' b,
    div_nonneg m a' b,
    div_nonpos m a b,
    div_mono m a a' b p q,
  )

  divz_anti :
      (m : Mode) (a b b' : F) → nought ≼ a → IsPos b → IsPos b' → b ≼ b' → divz m a b' ≼ divz m a b
  unfolding divz
  divz_anti m a b b' p q q' h = ground (
    arith,
    le_num _ _ p,
    le_refl nought nought_num,
    inf_of_le b b',
    q.nonneg,
    div_num m a b,
    div_num m a b',
    div_nonneg m a b,
    div_anti m a b b' p q h,
  )

  divz_anti_nonpos :
      (m : Mode) (a b b' : F) → a ≼ nought → IsPos b → IsPos b' → b ≼ b' → divz m a b ≼ divz m a b'
  unfolding divz
  divz_anti_nonpos m a b b' p q q' h = ground (
    arith,
    le_num _ _ p,
    le_refl nought nought_num,
    inf_of_le b b',
    q.nonneg,
    div_num m a b,
    div_num m a b',
    div_nonpos m a b,
    div_anti_nonpos m a b b' p q h,
  )

  pub divz-le_either :
      (m : Mode) (l h x y : F)
      → IsPos y
      → ((l ≼ x) × (x ≼ h)) ⊎ ((h ≼ x) × (x ≼ l))
      → (divz m x y ≼ divz m l y) ⊎ (divz m x y ≼ divz m h y)
  divz-le_either m l h x y pos (inl (p, q)) = inr (divz_mono m x h y q pos)
  divz-le_either m l h x y pos (inr (p, q)) = inl (divz_mono m x l y q pos)

  pub divz-le_either_right :
      (m : Mode) (x l h y : F)
      → IsNum x
      → IsPos l
      → IsPos h
      → IsPos y
      → l ≼ y
      → y ≼ h
      → (divz m x y ≼ divz m x l) ⊎ (divz m x y ≼ divz m x h)
  divz-le_either_right m x l h y num low high pos p q = elim (le_total nought x nought_num num) [
    | inl nonneg ↦ inl (divz_anti m x l y nonneg low pos p)
    | inr nonpos ↦ inr (divz_anti_nonpos m x y h nonpos pos high q)
  ]

  pub divz-le_up : (m : Mode) (a b : F) → IsNum a → IsPos b → divz m a b ≼ divz up a b
  unfolding divz
  divz-le_up m a b p q =
      ground (arith, le_refl nought nought_num, div_num m a b p, div_rounded.le-up m a b)

  divz_down-le : (m : Mode) (a b : F) → IsNum a → IsPos b → divz down a b ≼ divz m a b
  unfolding divz
  divz_down-le m a b p q =
      ground (arith, le_refl nought nought_num, div_num m a b p, div_rounded.down-le m a b)

  pub neg-divz-le : (m : Mode) (a b : F) → IsNum a → IsPos b → neg (divz up (neg a) b) ≼ divz m a b
  neg-divz-le m a b p q = le_trans _ _ _ below (divz_down-le m a b p q)
    where
      below : neg (divz up (neg a) b) ≼ divz down a b
      below =
          unfold divz in
          ground (
            arith,
            neg_zero a p,
            neg_nought,
            neg_num a p,
            div_num up (neg a) b,
            div_num down a b,
            (λ (num : IsNum (div up (neg a) b)). neg-div a b (inl (neg_num _ num))),
            le_refl (div down a b),
          )

  pub div-divz :
      (m : Mode) (a b : F) → IsNum (div m a b) → (div m a b ≼ divz m a b) × (divz m a b ≼ div m a b)
  unfolding divz
  div-divz m a b num = ground (arith, le_refl (div m a b) num, div_zero m a b)
