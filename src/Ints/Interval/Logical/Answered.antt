-- ===== src/Ints/Interval/Logical/Answered.antt =====
-- The comparisons of intervals give every answer that their members give.
use mopsa_ocaml.Prelude.{
  ◌≡◌, ◌≢◌, refl, inl, inr, Bool, true, false, not, ◌&&◌, Option, some, arith, Bool-cases,
}
use mopsa_ocaml.Prelude.Signed.{◌≤ℤ◌}
use mopsa_ocaml.Ints.Zarith.{Zarith, Laws}
use mopsa_ocaml.Ints.Bound.{Bound, finite}
use mopsa_ocaml.Ints.Bound as B
use mopsa_ocaml.Ints.Bound.Order.{Le, Le_trans, leq-Le, geq-leq, gt-leq, lt-leq}
use mopsa_ocaml.Ints.Interval.{Itv, contains, zero, one, zero_one, cst, intersect}
use mopsa_ocaml.Ints.Interval.Lattice.{In, contains-In}
use mopsa_ocaml.Ints.Interval.Filter.Orders.{Comparison, leq, geq, lt, gt, eq, neq, Holds}
use mopsa_ocaml.Ints.Interval.Filter.Unequal.{equal-Le, single, at_one}
use mopsa_ocaml.Ints.Interval.Logical.{
  equal, is_singleton, to_bool, log_eq, log_leq, log_geq, log_lt, log_gt, log_neq,
}

abbrev pub negation : Comparison → Comparison
negation leq = gt
negation geq = lt
negation lt = geq
negation gt = leq
negation eq = neq
negation neq = eq

module _ ⦃A : Zarith⦄ where
  abbrev pub log : Comparison → Itv → Itv → Option Itv
  log leq i j = log_leq i j
  log geq i j = log_geq i j
  log lt i j = log_lt i j
  log gt i j = log_gt i j
  log eq i j = log_eq i j
  log neq i j = log_neq i j

  -- 1 where the comparison holds and 0 where it does not.
  abbrev pub answer : Bool → A.Z
  answer true = A.one
  answer false = A.zero

-- The comparison holds, or it does not.
abbrev pub asked : Bool → Comparison → Comparison
asked true o = o
asked false o = negation o

module _ ⦃A : Zarith⦄ ⦃L : Laws A⦄ where
  Answered : Bool → Option Itv → Type 0
  Answered t r = (k : Itv) × (r ≡ some k) × (contains (answer t) k ≡ true)

  on_zero : (z o : Bool) → z ≡ true → Answered false (to_bool z o)
  unfolding Answered to_bool zero zero_one cst
  on_zero true true e = (
    _,
    refl,
    (contains-In A.zero zero_one).1 (omega arith, rw (L.value_zero, L.value_one) (omega arith)),
  )
  on_zero true false e = (_, refl, (contains-In A.zero zero).1 (omega arith, omega arith))
  on_zero false o e = absurd (cc)

  on_one : (z o : Bool) → o ≡ true → Answered true (to_bool z o)
  unfolding Answered to_bool one zero_one cst
  on_one true true e = (
    _,
    refl,
    (contains-In A.one zero_one).1 (rw (L.value_zero, L.value_one) (omega arith), omega arith),
  )
  on_one false true e = (_, refl, (contains-In A.one one).1 (omega arith, omega arith))
  on_one z false e = absurd (cc)

  module _ (a b c d : Bound A.Z) (x y : A.Z) (xi : In x (a, b)) (yj : In y (c, d)) where
    below : L.value x ≤ℤ L.value y → B.leq a d ≡ true
    below h =
        (leq-Le a d).1 (Le_trans a (finite x) d xi.0 (Le_trans (finite x) (finite y) d h yj.1))

    above : L.value y ≤ℤ L.value x → B.geq b c ≡ true
    above h =
        rw (geq-leq b c)
          ((leq-Le c b).1 (Le_trans c (finite y) b yj.0 (Le_trans (finite y) (finite x) b h xi.1)))

    strictly_above : Holds lt (L.value y) (L.value x) → B.gt b c ≡ true
    strictly_above h = elim (Bool-cases (B.leq b c)) [
      | inl le ↦
          let back : Le (finite x) (finite y) =
            Le_trans (finite x) b (finite y) xi.1
              (Le_trans b c (finite y) ((leq-Le b c).0 le) yj.0) in
          absurd (omega (arith, back))
      | inr no_le ↦ rw (gt-leq b c, no_le) refl
    ]

    strictly_below : Holds lt (L.value x) (L.value y) → B.lt a d ≡ true
    strictly_below h = elim (Bool-cases (B.leq d a)) [
      | inl le ↦
          let back : Le (finite y) (finite x) =
            Le_trans (finite y) d (finite x) yj.1
              (Le_trans d a (finite x) ((leq-Le d a).0 le) xi.0) in
          absurd (omega (arith, back))
      | inr no_le ↦ rw (lt-leq a d, no_le) refl
    ]

    meeting : L.value x ≡ L.value y → intersect (a, b) (c, d) ≡ true
    unfolding intersect
    meeting e =
        let same : L.value x ≤ℤ L.value y = rw e (omega arith) in
        let same' : L.value y ≤ℤ L.value x = rw e (omega arith) in
        let left = below same in
        let right = rw (geq-leq b c) at (above same') in rw (left, right) refl

    apart : L.value x ≢ L.value y → not (equal (a, b) (c, d) && is_singleton (a, b)) ≡ true
    unfolding equal is_singleton
    apart differ = elim (Bool-cases ((B.equal a c && B.equal b d) && B.equal a b)) [
      | inl one ↦
          let ac : B.equal a c ≡ true = ground arith in
          let bd : B.equal b d ≡ true = ground arith in
          let ab : B.equal a b ≡ true = ground arith in
          let (l, m) = single a b x ab xi in
          let (up, down) = equal-Le a c ac in
          let (up', down') = equal-Le b d bd in
          let (ab', ba') = equal-Le a b ab in
          absurd (
            at_one x y a differ l xi.0 (Le_trans (finite y) d a yj.1 (Le_trans d b a down' ba'))
              (Le_trans a c (finite y) up yj.0))
      | inr other ↦ rw other refl
    ]

  -- For integers that obey Zarith's laws, any of the comparisons <=, >=, <, >, = and <>, and any
  -- members of two intervals: log_leq and its like do not fail, and their result contains 1 where
  -- the comparison holds for the members, and 0 where its negation does.
  pub log-contains :
      (o : Comparison) (t : Bool) (i j : Itv) (x y : A.Z)
      → contains x i ≡ true
      → contains y j ≡ true
      → Holds (asked t o) (L.value x) (L.value y)
      → (k : Itv) × (log o i j ≡ some k) × (contains (answer t) k ≡ true)
  unfolding log_eq log_leq log_geq log_lt log_gt log_neq Answered
  log-contains o t (a, b) (c, d) x y h l holds =
      by o t holds ((contains-In x (a, b)).0 h) ((contains-In y (c, d)).0 l)
    where
      by :
          (o : Comparison) (t : Bool)
          → Holds (asked t o) (L.value x) (L.value y)
          → In x (a, b)
          → In y (c, d)
          → Answered t (log o (a, b) (c, d))
      by leq true e p q = on_one _ _ (below a b c d x y p q e)
      by leq false e p q = on_zero _ _ (strictly_above a b c d x y p q e)
      by geq true e p q = on_one _ _ (above a b c d x y p q e)
      by geq false e p q = on_zero _ _ (strictly_below a b c d x y p q e)
      by lt true e p q = on_one _ _ (strictly_below a b c d x y p q e)
      by lt false e p q = on_zero _ _ (above a b c d x y p q e)
      by gt true e p q = on_one _ _ (strictly_above a b c d x y p q e)
      by gt false e p q = on_zero _ _ (below a b c d x y p q e)
      by eq true e p q = on_one _ _ (meeting a b c d x y p q e)
      by eq false e p q = on_zero _ _ (apart a b c d x y p q e)
      by neq true e p q = on_one _ _ (apart a b c d x y p q e)
      by neq false e p q = on_zero _ _ (meeting a b c d x y p q e)
