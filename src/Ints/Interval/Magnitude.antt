-- ===== src/Ints/Interval/Magnitude.antt =====
-- Absolute values of intervals.
use mopsa_ocaml.Prelude.{
  zero, suc, ℤ, pos, negsuc, ◌≡◌, refl, inl, inr, true, false, arith, Bool-cases,
}
use mopsa_ocaml.Prelude.Signed.{◌≤ℤ◌, one_part}
use mopsa_ocaml.Stub.Numbers.Divide.{minus}
use mopsa_ocaml.Ints.Bound.Remainder.{minus_parts}
use mopsa_ocaml.Ints.Zarith.{Zarith, Laws}
use mopsa_ocaml.Ints.Bound.{Bound, minf, pinf, finite, not_above, sign, level, gt, lt, equal}
use mopsa_ocaml.Ints.Bound as B
use mopsa_ocaml.Ints.Bound.Order.{Le, Le_pinf, Le_trans, max_upper}
use mopsa_ocaml.Ints.Bound.Remainder.{size}
use mopsa_ocaml.Ints.Interval.Forward.{abs, neg}
use mopsa_ocaml.Ints.Interval.Lattice.{In}

module _ ⦃A : Zarith⦄ ⦃L : Laws A⦄ where
  pub neg_anti : (a b : Bound A.Z) → Le a b → Le (B.neg b) (B.neg a)
  unfolding B.neg
  neg_anti minf b h = Le_pinf (B.neg b)
  neg_anti (finite x) minf h = absurd h
  neg_anti (finite x) (finite y) h =
      rw (L.neg_law x, L.neg_law y)
        (omega (arith, minus_parts (L.value x), minus_parts (L.value y)))
  neg_anti (finite x) pinf h = tt
  neg_anti pinf minf h = absurd h
  neg_anti pinf (finite y) h = absurd h
  neg_anti pinf pinf h = tt

  -- The bounds that `not_above (sign a)` tells apart.
  pub below_zero : (a : Bound A.Z) → not_above (sign a) ≡ true → Le a B.zero
  unfolding B.zero sign
  below_zero minf h = tt
  below_zero (finite x) h = rw L.value_zero (ground (arith, L.sign_law x))
  below_zero pinf h = absurd (cc)

  above_zero : (a : Bound A.Z) → not_above (sign a) ≡ false → Le B.one a
  unfolding B.one sign
  above_zero minf h = absurd (cc)
  above_zero (finite x) h = rw L.value_one (ground (arith, L.sign_law x))
  above_zero pinf h = tt

  -- An integer with the magnitude of y.
  unfoldable pub Magnitude : A.Z → A.Z → Type 0
  Magnitude w y = L.value w ≡ pos (size (L.value y))

  itself : (y : A.Z) → pos 0 ≤ℤ L.value y → Magnitude y y
  unfolding Magnitude
  itself y h = same (L.value y) h
    where
      same : (v : ℤ) → pos 0 ≤ℤ v → v ≡ pos (size v)
      same (pos n) h = refl
      same (negsuc n) h = absurd (omega arith)

  negation : (y : A.Z) → L.value y ≤ℤ pos 0 → Magnitude (A.neg y) y
  unfolding Magnitude
  negation y h = rw (L.neg_law y) (same (L.value y) h)
    where
      same : (v : ℤ) → v ≤ℤ pos 0 → minus v ≡ pos (size v)
      same (pos zero) h = refl
      same (pos (suc n)) h = absurd (omega arith)
      same (negsuc n) h = refl

  negated_nonneg : (y : A.Z) → L.value y ≤ℤ pos 0 → Le B.zero (finite (A.neg y))
  unfolding B.zero
  negated_nonneg y h = rw (L.value_zero, L.neg_law y) (omega (arith, minus_parts (L.value y)))

  pub abs-In :
      (a b : Bound A.Z) (y : A.Z) → In y (a, b) → (w : A.Z) × Magnitude w y × In w (abs (a, b))
  unfolding abs neg B.zero B.neg
  abs-In a b y (h, k) = elim (Bool-cases (not_above (sign a))) [
    | inr above ↦
        let low : pos 1 ≤ℤ L.value y =
          unfold B.one in
          (rw L.value_one at (Le_trans B.one a (finite y) (above_zero a above) h)) in
        (y, itself y (omega (arith, low)), rw above (h, k))
    | inl below ↦ elim (Bool-cases (not_above (sign b))) [
      | inl all ↦
          let high : L.value y ≤ℤ pos 0 =
            rw L.value_zero at (Le_trans (finite y) b B.zero k (below_zero b all)) in
          (
            A.neg y,
            negation y high,
            rw (below, all) (neg_anti (finite y) b k, neg_anti a (finite y) h),
          )
      | inr mixed ↦
          let (left, right) = max_upper (B.neg a) b in
          elim (one_part (L.value y)) [
            | inl up ↦ (
              y,
              itself y (omega arith),
              rw (below, mixed)
                  (
                    rw L.value_zero (omega arith),
                    Le_trans (finite y) b (B.max (B.neg a) b) k right,
                  ),
            )
            | inr down ↦ (
              A.neg y,
              negation y (omega arith),
              rw (below, mixed)
                  (
                    negated_nonneg y (omega arith),
                    Le_trans (finite (A.neg y)) (B.neg a) (B.max (B.neg a) b)
                        (neg_anti a (finite y) h) left,
                  ),
            )
          ]
    ]
  ]
