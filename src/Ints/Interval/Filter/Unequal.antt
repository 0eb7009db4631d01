-- ===== src/Ints/Interval/Filter/Unequal.antt =====
-- The filter for inequality.
use mopsa_ocaml.Prelude.{◌≡◌, ◌≢◌, Bool, true, false, arith}
use mopsa_ocaml.Prelude.Signed.{eq_of_parts}
use mopsa_ocaml.Ints.Interval.Residue.{level-value}
use mopsa_ocaml.Ints.Zarith.{Zarith, Laws}
use mopsa_ocaml.Ints.Bound.{Bound, minf, pinf, finite, equal}
use mopsa_ocaml.Ints.Bound as B
use mopsa_ocaml.Ints.Bound.Order.{Le, Le_trans}
use mopsa_ocaml.Ints.Interval.{nb, Itv, contains, of_bound_bot}
use mopsa_ocaml.Ints.Interval.Filter.{bot_merge2, neq_case}
use mopsa_ocaml.Ints.Interval.Lattice.{In, contains-In, of_bound_bot-Member}
use mopsa_ocaml.Ints.Interval.Filter.Orders.{Kept, succ_Le, pred_Le, merged}

module _ ⦃A : Zarith⦄ ⦃L : Laws A⦄ where
  pub equal-Le : (p q : Bound A.Z) → equal p q ≡ true → Le p q × Le q p
  unfolding equal
  equal-Le minf minf e = (tt, tt)
  equal-Le minf (finite y) e = absurd (cc)
  equal-Le minf pinf e = absurd (cc)
  equal-Le (finite x) minf e = absurd (cc)
  equal-Le (finite x) (finite y) e =
      let same = level-value x y e in (rw same (omega arith), rw same (omega arith))
  equal-Le (finite x) pinf e = absurd (cc)
  equal-Le pinf minf e = absurd (cc)
  equal-Le pinf (finite y) e = absurd (cc)
  equal-Le pinf pinf e = (tt, tt)

  -- The member of an interval whose bounds are equal.
  pub single :
      (a b : Bound A.Z) (x : A.Z)
      → equal a b ≡ true
      → In x (a, b)
      → Le (finite x) a × Le b (finite x)
  single a b x e (h, k) =
      let (ab, ba) = equal-Le a b e in (Le_trans (finite x) b a k ba, Le_trans b a (finite x) ba h)

  -- Two integers at one bound are equal.
  pub at_one :
      (x y : A.Z) (t : Bound A.Z)
      → L.value x ≢ L.value y
      → Le (finite x) t
      → Le t (finite x)
      → Le (finite y) t
      → Le t (finite y)
      → ⊥
  at_one x y t differ h k l m =
      let below : Le (finite x) (finite y) = Le_trans (finite x) t (finite y) h m in
      let above : Le (finite y) (finite x) = Le_trans (finite y) t (finite x) l k in
      differ (eq_of_parts (L.value x) (L.value y) (omega arith))

  Kept-first :
      (i : Itv) (c d : Bound A.Z) (x y : A.Z)
      → contains x i ≡ true
      → In y (c, d)
      → Kept x y (bot_merge2 (nb i) (of_bound_bot c d))
  Kept-first i c d x y h l =
      merged x y (nb i) (of_bound_bot c d) h ((of_bound_bot-Member y c d).1 l)

  Kept-second :
      (a b : Bound A.Z) (j : Itv) (x y : A.Z)
      → In x (a, b)
      → contains y j ≡ true
      → Kept x y (bot_merge2 (of_bound_bot a b) (nb j))
  Kept-second a b j x y h l =
      merged x y (of_bound_bot a b) (nb j) ((of_bound_bot-Member x a b).1 h) l

  module _ (a b c d : Bound A.Z) (x y : A.Z) (xi : contains x (a, b) ≡ true)
      (yj : contains y (c, d) ≡ true) (differ : L.value x ≢ L.value y) where
    pub Kept-case :
        (s t u v : Bool)
        → equal a b ≡ s
        → equal c d ≡ t
        → equal a c ≡ u
        → equal b d ≡ v
        → Kept x y (neq_case s t u v (a, b) (c, d))
    Kept-case true true true v es et eu ev =
        let (h, k) = (contains-In x (a, b)).0 xi in
        let (l, m) = (contains-In y (c, d)).0 yj in
        let (ac, ca) = equal-Le a c eu in
        at_one x y a differ (single a b x es (h, k)).0 h
          (Le_trans (finite y) c a (single c d y et (l, m)).0 ca) (Le_trans a c (finite y) ac l)
    Kept-case true true false v es et eu ev = (xi, yj)
    Kept-case true false true v es et eu ev =
        let (h, k) = (contains-In x (a, b)).0 xi in
        let (l, m) = (contains-In y (c, d)).0 yj in
        let (ac, ca) = equal-Le a c eu in
        Kept-first (a, b) (B.succ c) d x y xi
          (
            succ_Le c y l (λ back.
                at_one x y a differ (single a b x es (h, k)).0 h (Le_trans (finite y) c a back ca)
                  (Le_trans a c (finite y) ac l)),
            m,
          )
    Kept-case true false false true es et eu ev =
        let (h, k) = (contains-In x (a, b)).0 xi in
        let (l, m) = (contains-In y (c, d)).0 yj in
        let (bd, db) = equal-Le b d ev in
        Kept-first (a, b) c (B.pred d) x y xi
          (
            l,
            pred_Le d y m (λ back.
                at_one x y b differ k (single a b x es (h, k)).1 (Le_trans (finite y) d b m db)
                  (Le_trans b d (finite y) bd back)),
          )
    Kept-case true false false false es et eu ev = (xi, yj)
    Kept-case false true true v es et eu ev =
        let (h, k) = (contains-In x (a, b)).0 xi in
        let (l, m) = (contains-In y (c, d)).0 yj in
        let (ac, ca) = equal-Le a c eu in
        Kept-second (B.succ a) b (c, d) x y
          (
            succ_Le a x h (λ back.
                at_one x y c differ (Le_trans (finite x) a c back ac) (Le_trans c a (finite x) ca h)
                  (single c d y et (l, m)).0 l),
            k,
          )
          yj
    Kept-case false true false true es et eu ev =
        let (h, k) = (contains-In x (a, b)).0 xi in
        let (l, m) = (contains-In y (c, d)).0 yj in
        let (bd, db) = equal-Le b d ev in
        Kept-second a (B.pred b) (c, d) x y
          (
            h,
            pred_Le b x k (λ back.
                at_one x y d differ (Le_trans (finite x) b d k bd) (Le_trans d b (finite x) db back)
                  m (single c d y et (l, m)).1),
          )
          yj
    Kept-case false true false false es et eu ev = (xi, yj)
    Kept-case false false u v es et eu ev = (xi, yj)
