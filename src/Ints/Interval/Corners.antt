-- ===== src/Ints/Interval/Corners.antt =====
-- minmax4 on an operation that keeps or turns round the order in each argument.
use mopsa_ocaml.Prelude.{inl, inr, ◌≡◌, true, refl, sym, Option, some}
use mopsa_ocaml.Ints.Zarith.{Zarith, Laws}
use mopsa_ocaml.Ints.Bound.{Bound, finite}
use mopsa_ocaml.Ints.Bound as B
use mopsa_ocaml.Ints.Bound.Order.{Le, Between, Le_trans, min_lower, max_upper}
use mopsa_ocaml.Ints.Interval.{Itv, contains}
use mopsa_ocaml.Ints.Interval.Forward.{minmax4}
use mopsa_ocaml.Ints.Interval.Lattice.{contains-In}

module _ ⦃A : Zarith⦄ ⦃L : Laws A⦄ where
  above : (m l r v : Bound A.Z) → Between l r v → Le m l → Le m r → Le m v
  above m l r v (inl (h, k)) ml mr = Le_trans m l v ml h
  above m l r v (inr (h, k)) ml mr = Le_trans m r v mr h

  below : (m l r v : Bound A.Z) → Between l r v → Le l m → Le r m → Le v m
  below m l r v (inl (h, k)) lm rm = Le_trans v r m k rm
  below m l r v (inr (h, k)) lm rm = Le_trans v l m k lm

  min4 : (p q r s : Bound A.Z) → Bound A.Z
  min4 p q r s = B.min (B.min p q) (B.min r s)

  max4 : (p q r s : Bound A.Z) → Bound A.Z
  max4 p q r s = B.max (B.max p q) (B.max r s)

  min4_lower :
      (p q r s : Bound A.Z)
      → Le (min4 p q r s) p × Le (min4 p q r s) q × Le (min4 p q r s) r × Le (min4 p q r s) s
  unfolding min4
  min4_lower p q r s =
      let (left, right) = min_lower (B.min p q) (B.min r s) in
      let (lp, lq) = min_lower p q in
      let (lr, ls) = min_lower r s in
      (
        Le_trans (min4 p q r s) (B.min p q) p left lp,
        Le_trans (min4 p q r s) (B.min p q) q left lq,
        Le_trans (min4 p q r s) (B.min r s) r right lr,
        Le_trans (min4 p q r s) (B.min r s) s right ls,
      )

  max4_upper :
      (p q r s : Bound A.Z)
      → Le p (max4 p q r s) × Le q (max4 p q r s) × Le r (max4 p q r s) × Le s (max4 p q r s)
  unfolding max4
  max4_upper p q r s =
      let (left, right) = max_upper (B.max p q) (B.max r s) in
      let (lp, lq) = max_upper p q in
      let (lr, ls) = max_upper r s in
      (
        Le_trans p (B.max p q) (max4 p q r s) lp left,
        Le_trans q (B.max p q) (max4 p q r s) lq left,
        Le_trans r (B.max r s) (max4 p q r s) lr right,
        Le_trans s (B.max r s) (max4 p q r s) ls right,
      )

  -- minmax4 on what the operation gives at the four corners.
  pub minmax4-corners :
      (op : Bound A.Z → Bound A.Z → Option (Bound A.Z)) (a b c d p q r s : Bound A.Z)
      → op a c ≡ some p
      → op a d ≡ some q
      → op b c ≡ some r
      → op b d ≡ some s
      → minmax4 op (a, b) (c, d)
        ≡ some (B.min (B.min p q) (B.min r s), B.max (B.max p q) (B.max r s))
  unfolding minmax4
  minmax4-corners op a b c d p q r s e f g h = rw (e, f, g, h) refl

  module _ (f : Bound A.Z → Bound A.Z → Bound A.Z) where
    -- It is enough that the result lies between those at the ends of the first interval, and each of
    -- these between those at two corners.
    pub minmax4-contains :
        (a b c d : Bound A.Z) (x : Bound A.Z) (y : Bound A.Z) (z : A.Z)
        → f x y ≡ finite z
        → Between (f a y) (f b y) (f x y)
        → Between (f a c) (f a d) (f a y)
        → Between (f b c) (f b d) (f b y)
        → (k : Itv) × (minmax4 (λ p q. some (f p q)) (a, b) (c, d) ≡ some k) × (contains z k ≡ true)
    unfolding minmax4
    minmax4-contains a b c d x y z e middle left right =
        let low = min4 (f a c) (f a d) (f b c) (f b d) in
        let high = max4 (f a c) (f a d) (f b c) (f b d) in
        let (l1, l2, l3, l4) = min4_lower (f a c) (f a d) (f b c) (f b d) in
        let (u1, u2, u3, u4) = max4_upper (f a c) (f a d) (f b c) (f b d) in
        let la = above low (f a c) (f a d) (f a y) left l1 l2 in
        let lb = above low (f b c) (f b d) (f b y) right l3 l4 in
        let ua = below high (f a c) (f a d) (f a y) left u1 u2 in
        let ub = below high (f b c) (f b d) (f b y) right u3 u4 in
        (
          (low, high),
          unfold min4 max4 in refl,
          (contains-In z (low, high)).1 (
            rw (sym e) (above low (f a y) (f b y) (f x y) middle la lb),
            rw (sym e) (below high (f a y) (f b y) (f x y) middle ua ub),
          ),
        )
