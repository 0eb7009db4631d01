-- ===== src/Math/Facts.antt =====
-- What the contracts of libc/math.c allow, for any float type.
use mathlib.Core.Path.{◌≡◌}
use mopsa_ocaml.Prelude.{ℤ, pos, refl, ◌≢◌, ◌↔◌, ◌⊎◌, inl, inr, arith, Bool-cases}
use mopsa_ocaml.Math.Floats.{Floats, Infinite, Class, finite, infinite, nan, Le, Lt, Eq, AtMost}
use mopsa_ocaml.Math.Laws.{IsOrdered, IsSigned}
use mopsa_ocaml.Math.Remainder.{fmod, fmodf}
use mopsa_ocaml.Math.Classify.{isinf, isnan, fpclassify}
use mopsa_ocaml.Math.Classify
use mopsa_ocaml.Math.Order.{copysign, fmax, fmin}

-- The class of a value.
Class-cases : (c : Class) → (c ≡ finite) ⊎ (c ≡ infinite) ⊎ (c ≡ nan)
Class-cases finite = inl refl
Class-cases infinite = inr (inl refl)
Class-cases nan = inr (inr refl)

module _ (F : Floats) where
  -- For any float type and any value, NaN and infinities included: no outcome that the contract of
  -- __fpclassify allows is 2.
  fpclassify_zero : (x : F.value) (r : ℤ) → (fpclassify F x).ensures r → r ≢ pos 2
  unfolding fpclassify
  fpclassify_zero x r outcome =
      ground
        (arith, outcome, Class-cases (F.class x), Bool-cases (F.eq (F.widen x) (F.num (pos 0))))

  -- For a float type in which zero compares with every infinity, and any value: whatever outcomes
  -- the contracts allow, isnan is not 0 exactly where __fpclassify is 0, isinf is not 0 exactly
  -- where it is 1, and finite is not 0 exactly where it is at least 3.
  pub fpclassify-isnan :
      (x : F.value) (c n i f : ℤ)
      → ((y : F.value)
          → Infinite F y
          → Le F (F.num (pos 0)) (F.widen y) ⊎ Le F (F.widen y) (F.num (pos 0)))
      → (fpclassify F x).ensures c
      → (isnan F x).ensures n
      → (isinf F x).ensures i
      → (Classify.finite F x).ensures f
      → ((n ≢ pos 0) ↔ (c ≡ pos 0)) × ((i ≢ pos 0) ↔ (c ≡ pos 1)) × ((f ≢ pos 0) ↔ AtMost (pos 3) c)
  unfolding fpclassify isnan isinf Classify.finite
  fpclassify-isnan x c n i f infinite_sign = ground (
    arith,
    Class-cases (F.class x),
    Bool-cases (F.eq (F.widen x) (F.num (pos 0))),
    infinite_sign x,
  )

  module _ (law : IsSigned F) where
    -- For a float type that obeys the laws of IsSigned, and arguments that meet fmod's requirements: every outcome that fmod's contract allows is one that fmodf's, with its
    -- nested conditions, allows too, and the other way round where the first argument is not zero.
    fmod-fmodf :
        (x y r : F.value)
        → (fmod F x y).requires
        → ((fmod F x y).ensures r → (fmodf F x y).ensures r)
          × ((¬ Eq F (F.widen x) (F.num (pos 0)))
              → (fmodf F x y).ensures r
              → (fmod F x y).ensures r)
    unfolding fmod fmodf
    fmod-fmodf x y r req = ground (
      arith,
      law.finite_sign x,
      law.finite_sign y,
      law.eq_zero (F.widen x),
      law.eq_zero (F.widen y),
    )

  module _ (order : IsOrdered F) where
    -- For a float type that obeys the laws of comparison and two finite arguments: outcomes of fmax
    -- and fmin are equal to the two arguments in one order or the other, and that of fmin is at
    -- most that of fmax.
    fmax-fmin :
        (x y a b : F.value)
        → (fmax F x y).requires
        → (fmax F x y).ensures a
        → (fmin F x y).ensures b
        → ((Eq F (F.widen a) (F.widen x) × Eq F (F.widen b) (F.widen y))
            ⊎ (Eq F (F.widen a) (F.widen y) × Eq F (F.widen b) (F.widen x)))
          × Le F (F.widen b) (F.widen a)
    unfolding fmax fmin
    fmax-fmin x y a b req high low =
        let x' = F.widen x in
        let y' = F.widen y in
        let a' = F.widen a in
        let b' = F.widen b in
        ground (
          arith,
          req,
          high,
          low,
          order.le_total x y,
          order.eq_le b' x',
          order.eq_le b' y',
          order.eq_sym a' x',
          order.eq_sym a' y',
          order.eq_le x' a',
          order.eq_le y' a',
          order.le_trans b' x' y',
          order.le_trans b' y' a',
          order.le_trans b' y' x',
          order.le_trans b' x' a',
        )

    -- For a float type that obeys the laws of comparison, a first argument above zero and a second
    -- one equal to zero: the contract of copysign allows no outcome at all.
    copysign_zero :
        (law : IsSigned F) (x y r : F.value)
        → Lt F (F.num (pos 0)) (F.widen x)
        → Eq F (F.widen y) (F.num (pos 0))
        → ¬ (copysign F x y).ensures r
    unfolding copysign
    copysign_zero law x y r above zero outcome = ground (
      arith,
      outcome,
      law.apart (F.widen x) above,
      order.lt_le (F.num (pos 0)) (F.widen x) above,
      order.eq_le (F.widen y) (F.num (pos 0)) zero,
      order.eq_le (F.num (pos 0)) (F.widen y) (order.eq_sym (F.widen y) (F.num (pos 0)) zero),
      order.eq_sym (F.widen r) (F.widen x),
      order.eq_trans (F.widen x) (F.widen r) (F.negate (F.widen x)),
    )
