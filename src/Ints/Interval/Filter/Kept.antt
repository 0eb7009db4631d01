-- ===== src/Ints/Interval/Filter/Kept.antt =====
-- The filters keep all pairs for which the comparison holds.
use mopsa_ocaml.Prelude.{◌≡◌, refl, true}
use mopsa_ocaml.Ints.Zarith.{Zarith, Laws}
use mopsa_ocaml.Ints.Interval.{Itv, contains}
use mopsa_ocaml.Ints.Interval.Filter.{filter_neq}
use mopsa_ocaml.Ints.Interval.Lattice.{contains-In}
use mopsa_ocaml.Ints.Interval.Filter.Orders.{
  Comparison, leq, geq, lt, gt, eq, neq, Holds, filter, Kept, Kept-leq, Kept-geq, Kept-lt, Kept-gt,
  Kept-eq,
}
use mopsa_ocaml.Ints.Interval.Filter.Unequal.{Kept-case}

module _ ⦃A : Zarith⦄ ⦃L : Laws A⦄ where
  -- For integers that obey Zarith's laws, any of the comparisons <=, >=, <, >, = and <>, any two
  -- intervals and any members of them for which the comparison holds: the filter of that comparison
  -- gives two intervals that contain these members.
  pub filter-Kept :
      (o : Comparison) (i j : Itv) (x y : A.Z)
      → contains x i ≡ true
      → contains y j ≡ true
      → Holds o (L.value x) (L.value y)
      → Kept x y (filter o i j)
  unfolding filter_neq
  filter-Kept leq (a, b) (c, d) x y h l holds =
      Kept-leq a b c d x y ((contains-In x (a, b)).0 h) ((contains-In y (c, d)).0 l) holds
  filter-Kept geq (a, b) (c, d) x y h l holds =
      Kept-geq a b c d x y ((contains-In x (a, b)).0 h) ((contains-In y (c, d)).0 l) holds
  filter-Kept lt (a, b) (c, d) x y h l holds =
      Kept-lt a b c d x y ((contains-In x (a, b)).0 h) ((contains-In y (c, d)).0 l) holds
  filter-Kept gt (a, b) (c, d) x y h l holds =
      Kept-gt a b c d x y ((contains-In x (a, b)).0 h) ((contains-In y (c, d)).0 l) holds
  filter-Kept eq i j x y h l holds = Kept-eq i j x y h l holds
  filter-Kept neq (a, b) (c, d) x y h l holds =
      Kept-case a b c d x y h l holds _ _ _ _ refl refl refl refl
