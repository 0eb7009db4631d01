-- ===== src/Ints/Interval/Missed.antt =====
-- Values that pow and shift_right leave out.
use mopsa_ocaml.Prelude.{
  pos, ◌≡◌, ◌+◌, ◌<◌, refl, ◌∙◌, inl, inr, true, false, ap, Option, none, some, arith, Bool-cases,
}
use mopsa_ocaml.Prelude.Signed.{pos_part, neg_part, ◌*ℤ◌, one_part, square_pos}
use mopsa_ocaml.Ints.Bound.Remainder.{minus_parts}
use mopsa_ocaml.Ints.Zarith.{Zarith, Laws}
use mopsa_ocaml.Ints.Bound.{Bound, finite}
use mopsa_ocaml.Ints.Bound as B
use mopsa_ocaml.Ints.Bound.Order.{Le, Le_refl, Le_trans, min_greatest}
use mopsa_ocaml.Ints.Interval.{Itv, ◌>>=◌, nb, cst, contains, positive}
use mopsa_ocaml.Ints.Interval.Forward.{pow, shift_right}
use mopsa_ocaml.Ints.Interval.Corners.{minmax4-corners}
use mopsa_ocaml.Ints.Interval.Lattice.{In, contains-In}

zero_square : pos 0 *ℤ (pos 0 *ℤ pos 1) ≡ pos 0
unfolding ◌*ℤ◌
zero_square = refl

module _ ⦃A : Zarith⦄ ⦃L : Laws A⦄ where
  one_le :
      (x : A.Z)
      → 0 < pos_part (L.value x) + neg_part (L.value x)
      → Le B.one (finite (A.pow x (pos 2)))
  unfolding B.one
  one_le x h = rw (L.value_one, L.pow_law x 2) (square_pos (L.value x) h)

  zero_low : Le B.one (finite A.zero) → ⊥
  unfolding B.one
  zero_low h = absurd (omega (arith, rw (L.value_one, L.value_zero) at h))

  not_contained : (z : A.Z) (i : Itv) → (In z i → ⊥) → contains z i ≡ false
  not_contained z i out = elim (Bool-cases (contains z i)) [
    | inl found ↦ absurd (out ((contains-In z i).0 found))
    | inr missed ↦ missed
  ]

  square :
      (x two : A.Z)
      → L.value two ≡ pos 2
      → B.pow (finite x) (finite two) ≡ some (finite (A.pow x (pos 2)))
  unfolding B.pow
  square x two e =
      rw (L.compare_law two A.zero, e, L.value_zero, L.to_int_law two 2 e (omega arith)) refl

  -- For integers that obey Zarith's laws and any x above 0: 0 is a member of the interval from -x
  -- to x and its square is 0, but pow of that interval and the interval of 2 gives an interval that
  -- does not contain 0.
  pub pow-contains_zero :
      (x two : A.Z)
      → 0 < pos_part (L.value x)
      → L.value two ≡ pos 2
      → (contains A.zero (finite (A.neg x), finite x) ≡ true)
        × (L.value (A.pow A.zero (pos 2)) ≡ pos 0)
        × ((k : Itv) × (pow (finite (A.neg x), finite x) (cst two) ≡ some k)
            × (contains A.zero k ≡ false))
  unfolding pow cst
  pow-contains_zero x two h e =
      let p = A.pow (A.neg x) (pos 2) in
      let q = A.pow x (pos 2) in
      let (minus_pos, minus_neg) = minus_parts (L.value x) in
      let one = one_part (L.value x) in
      let from_minus : Le B.one (finite p) = one_le (A.neg x) (rw (L.neg_law x) (omega arith)) in
      let from_x : Le B.one (finite q) = one_le x (omega arith) in
      let least = B.min (B.min (finite p) (finite p)) (B.min (finite q) (finite q)) in
      let bound : Le B.one least =
        min_greatest (B.min (finite p) (finite p)) (B.min (finite q) (finite q)) B.one
          (min_greatest (finite p) (finite p) B.one from_minus from_minus)
          (min_greatest (finite q) (finite q) B.one from_x from_x) in
      (
        (contains-In A.zero (finite (A.neg x), finite x)).1
            (rw (L.neg_law x, L.value_zero) (omega arith, omega arith)),
        L.pow_law A.zero 2 ∙ rw L.value_zero zero_square,
        (
          (least, B.max (B.max (finite p) (finite p)) (B.max (finite q) (finite q))),
          minmax4-corners B.pow (finite (A.neg x)) (finite x) (finite two) (finite two) (finite p)
              (finite p) (finite q) (finite q) (square (A.neg x) two e) (square (A.neg x) two e)
              (square x two e) (square x two e),
          not_contained A.zero _
              (λ (low, _). zero_low (Le_trans B.one least (finite A.zero) bound low)),
        ),
      )

  shifted :
      (x y : A.Z)
      → 0 < pos_part (L.value y)
      → A.to_int y ≡ none
      → B.shift_right (finite x) (finite y) ≡ some B.zero
  unfolding B.shift_right
  shifted x y h huge = ground (arith, L.compare_law y A.zero, L.value_zero)

  positive-cst : (y : A.Z) → 0 < pos_part (L.value y) → positive (cst y) ≡ nb (cst y)
  unfolding positive cst
  positive-cst y h = ground (arith, L.compare_law y A.zero, L.compare_law y y, L.value_zero)

  zero_zeros : Le B.zero (B.min B.zero B.zero)
  zero_zeros = min_greatest B.zero B.zero B.zero (Le_refl B.zero) (Le_refl B.zero)

  negative : (z : A.Z) → 0 < neg_part (L.value z) → Le B.zero (finite z) → ⊥
  unfolding B.zero
  negative z h low = absurd (omega (arith, rw L.value_zero at low, one_part (L.value z)))

  -- For integers that obey Zarith's laws, any x below 0 and any amount above 0 that Z.to_int does
  -- not convert: shift_right of the interval of x by that of the amount gives an interval that
  -- contains no negative number, not even -1.
  pub shift_right-negative :
      (x y z : A.Z)
      → 0 < neg_part (L.value x)
      → 0 < pos_part (L.value y)
      → A.to_int y ≡ none
      → 0 < neg_part (L.value z)
      → (k : Itv) × (shift_right (cst x) (cst y) ≡ some (nb k)) × (contains z k ≡ false)
  unfolding shift_right cst
  shift_right-negative x y z hx hy huge hz =
      let corner = shifted x y hy huge in
      let zeros = B.min B.zero B.zero in
      let least : Le B.zero (B.min zeros zeros) =
        min_greatest zeros zeros B.zero zero_zeros zero_zeros in
      (
        (B.min zeros zeros, B.max (B.max B.zero B.zero) (B.max B.zero B.zero)),
        rw (positive-cst y hy) (
            ap (λ (r : Option Itv). r >>= λ k. some (nb k))
              (minmax4-corners B.shift_right (finite x) (finite x) (finite y) (finite y) B.zero
                B.zero B.zero B.zero corner corner corner corner)),
        not_contained z _
            (λ (low, _). negative z hz (Le_trans B.zero (B.min zeros zeros) (finite z) least low)),
      )
