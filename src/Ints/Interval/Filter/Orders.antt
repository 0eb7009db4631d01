-- ===== src/Ints/Interval/Filter/Orders.antt =====
-- The filters for equality and for the orders.
use mopsa_ocaml.Prelude.{ℤ, pos, ◌+◌, ◌<◌, ◌≡◌, ◌≢◌, true, arith}
use mopsa_ocaml.Prelude.Signed.{pos_part, neg_part, ◌≤ℤ◌, +ℤ_parts, -ℤ_parts}
use mopsa_ocaml.Ints.Interval.Residue.{value-In}
use mopsa_ocaml.Prelude.{sym}
use mopsa_ocaml.Ints.Zarith.{Zarith, Laws}
use mopsa_ocaml.Ints.Bound.{Bound, minf, pinf, finite, equal}
use mopsa_ocaml.Ints.Bound as B
use mopsa_ocaml.Ints.Bound.Order.{Le, Le_trans, min_greatest, max_least}
use mopsa_ocaml.Ints.Interval.{WithBot, bot, nb, Itv, contains, of_bound_bot, meet}
use mopsa_ocaml.Ints.Interval.Filter.{
  bot_merge2, filter_leq, filter_geq, filter_lt, filter_gt, filter_eq, filter_neq, both,
}
use mopsa_ocaml.Ints.Interval.Lattice.{In, contains-In, Member, of_bound_bot-Member, meet-contains}

pub data Comparison : Type 0 where
  leq geq lt gt eq neq : Comparison

abbrev pub Holds : Comparison → ℤ → ℤ → Type 0
Holds leq x y = x ≤ℤ y
Holds geq x y = y ≤ℤ x
Holds lt x y = pos_part x + neg_part y < pos_part y + neg_part x
Holds gt x y = pos_part y + neg_part x < pos_part x + neg_part y
Holds eq x y = x ≡ y
Holds neq x y = x ≢ y

module _ ⦃A : Zarith⦄ where
  abbrev pub filter : Comparison → Itv → Itv → WithBot (Itv × Itv)
  filter leq i j = filter_leq i j
  filter geq i j = filter_geq i j
  filter lt i j = filter_lt i j
  filter gt i j = filter_gt i j
  filter eq i j = filter_eq i j
  filter neq i j = filter_neq i j

  abbrev pub Kept : A.Z → A.Z → WithBot (Itv × Itv) → Type 0
  Kept x y bot = ⊥
  Kept x y (nb (i, j)) = (contains x i ≡ true) × (contains y j ≡ true)

module _ ⦃A : Zarith⦄ ⦃L : Laws A⦄ where
  pub merged : (x y : A.Z) (i j : WithBot Itv) → Member x i → Member y j → Kept x y (bot_merge2 i j)
  merged x y bot j h l = absurd h
  merged x y (nb i) bot h l = absurd l
  merged x y (nb i) (nb j) h l = (h, l)

  pub succ_Le :
      (c : Bound A.Z) (y : A.Z) → Le c (finite y) → (Le (finite y) c → ⊥) → Le (B.succ c) (finite y)
  unfolding B.succ
  succ_Le minf y h strict = tt
  succ_Le (finite v) y h strict =
      rw (L.succ_law v) (omega (arith, strict, +ℤ_parts (L.value v) (pos 1)))
  succ_Le pinf y h strict = absurd h

  pub pred_Le :
      (d : Bound A.Z) (y : A.Z) → Le (finite y) d → (Le d (finite y) → ⊥) → Le (finite y) (B.pred d)
  unfolding B.pred
  pred_Le minf y h strict = absurd h
  pred_Le (finite v) y h strict =
      rw (L.pred_law v) (omega (arith, strict, -ℤ_parts (L.value v) (pos 1)))
  pred_Le pinf y h strict = tt

  pub both_bounded :
      (a b c d : Bound A.Z) (x y : A.Z)
      → In x (a, b)
      → In y (c, d)
      → Kept x y (bot_merge2 (of_bound_bot a b) (of_bound_bot c d))
  both_bounded a b c d x y h l =
      merged x y (of_bound_bot a b) (of_bound_bot c d) ((of_bound_bot-Member x a b).1 h)
        ((of_bound_bot-Member y c d).1 l)

  pub Kept-leq :
      (a b c d : Bound A.Z) (x y : A.Z)
      → In x (a, b)
      → In y (c, d)
      → L.value x ≤ℤ L.value y
      → Kept x y (filter_leq (a, b) (c, d))
  unfolding filter_leq
  Kept-leq a b c d x y (h, k) (l, m) le =
      both_bounded a (B.min b d) (B.max a c) d x y
        (h, min_greatest b d (finite x) k (Le_trans (finite x) (finite y) d le m))
        (max_least a c (finite y) (Le_trans a (finite x) (finite y) h le) l, m)

  pub Kept-geq :
      (a b c d : Bound A.Z) (x y : A.Z)
      → In x (a, b)
      → In y (c, d)
      → L.value y ≤ℤ L.value x
      → Kept x y (filter_geq (a, b) (c, d))
  unfolding filter_geq
  Kept-geq a b c d x y (h, k) (l, m) le =
      both_bounded (B.max a c) b c (B.min b d) x y
        (max_least a c (finite x) h (Le_trans c (finite y) (finite x) l le), k)
        (l, min_greatest b d (finite y) (Le_trans (finite y) (finite x) b le k) m)

  -- What lies strictly between a bound and a greater integer.
  pub strictly : (x y : A.Z) → Holds lt (L.value x) (L.value y) → Le (finite y) (finite x) → ⊥
  strictly x y h le = absurd (omega arith)

  pub Kept-lt :
      (a b c d : Bound A.Z) (x y : A.Z)
      → In x (a, b)
      → In y (c, d)
      → Holds lt (L.value x) (L.value y)
      → Kept x y (filter_lt (a, b) (c, d))
  unfolding filter_lt
  Kept-lt a b c d x y (h, k) (l, m) less =
      let le : Le (finite x) (finite y) = omega arith in
      let high =
        pred_Le d x (Le_trans (finite x) (finite y) d le m)
          (λ back. strictly x y less (Le_trans (finite y) d (finite x) m back)) in
      let low =
        succ_Le a y (Le_trans a (finite x) (finite y) h le)
          (λ back. strictly x y less (Le_trans (finite y) a (finite x) back h)) in
      both_bounded a (B.min b (B.pred d)) (B.max (B.succ a) c) d x y
        (h, min_greatest b (B.pred d) (finite x) k high)
        (max_least (B.succ a) c (finite y) low l, m)

  pub Kept-gt :
      (a b c d : Bound A.Z) (x y : A.Z)
      → In x (a, b)
      → In y (c, d)
      → Holds lt (L.value y) (L.value x)
      → Kept x y (filter_gt (a, b) (c, d))
  unfolding filter_gt
  Kept-gt a b c d x y (h, k) (l, m) less =
      let le : Le (finite y) (finite x) = omega arith in
      let high =
        pred_Le b y (Le_trans (finite y) (finite x) b le k)
          (λ back. strictly y x less (Le_trans (finite x) b (finite y) k back)) in
      let low =
        succ_Le c x (Le_trans c (finite y) (finite x) l le)
          (λ back. strictly y x less (Le_trans (finite x) c (finite y) back l)) in
      both_bounded (B.max a (B.succ c)) b c (B.min (B.pred b) d) x y
        (max_least a (B.succ c) (finite x) h low, k)
        (l, min_greatest (B.pred b) d (finite y) high m)

  pub Kept-both : (x y : A.Z) (m : WithBot Itv) → Member x m → Member y m → Kept x y (both m)
  Kept-both x y bot h l = absurd h
  Kept-both x y (nb i) h l = (h, l)

  pub Kept-eq :
      (i j : Itv) (x y : A.Z)
      → contains x i ≡ true
      → contains y j ≡ true
      → L.value x ≡ L.value y
      → Kept x y (filter_eq i j)
  unfolding filter_eq
  Kept-eq (a, b) (c, d) x y h l e =
      let xj = (contains-In x (c, d)).1 (value-In y x c d e ((contains-In y (c, d)).0 l)) in
      let yi = (contains-In y (a, b)).1 (value-In x y a b (sym e) ((contains-In x (a, b)).0 h)) in
      Kept-both x y (meet (a, b) (c, d)) ((meet-contains x (a, b) (c, d)).1 (h, xj))
        ((meet-contains y (a, b) (c, d)).1 (yi, l))
