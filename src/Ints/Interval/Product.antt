-- ===== src/Ints/Interval/Product.antt =====
-- Products of intervals.
use mopsa_ocaml.Prelude.{◌≡◌, refl, true, some}
use mopsa_ocaml.Ints.Zarith.{Zarith, Laws}
use mopsa_ocaml.Ints.Bound.{finite}
use mopsa_ocaml.Ints.Bound as B
use mopsa_ocaml.Ints.Bound.Product.{mul-Between, mul-Between_right}
use mopsa_ocaml.Ints.Interval.{Itv, contains}
use mopsa_ocaml.Ints.Interval.Forward.{mul}
use mopsa_ocaml.Ints.Interval.Lattice.{contains-In}
use mopsa_ocaml.Ints.Interval.Corners.{minmax4-contains}

module _ ⦃A : Zarith⦄ ⦃L : Laws A⦄ where
  -- For integers that obey Zarith's laws, any two intervals and any members of them, bounds at
  -- infinity included: mul of the intervals gives an interval that contains the product of the
  -- members.
  pub mul-contains :
      (i j : Itv) (x y : A.Z)
      → contains x i ≡ true
      → contains y j ≡ true
      → (k : Itv) × (mul i j ≡ some k) × (contains (A.mul x y) k ≡ true)
  unfolding mul
  mul-contains (a, b) (c, d) x y h l =
      let (xa, xb) = (contains-In x (a, b)).0 h in
      let (yc, yd) = (contains-In y (c, d)).0 l in
      minmax4-contains B.mul a b c d (finite x) (finite y) (A.mul x y) (unfold B.mul in refl)
        (mul-Between a b (finite x) (finite y) xa xb) (mul-Between_right a (finite y) c d yc yd)
        (mul-Between_right b (finite y) c d yc yd)
