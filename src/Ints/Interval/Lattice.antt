-- ===== src/Ints/Interval/Lattice.antt =====
-- Membership, join, meet and widening of intervals.
use mopsa_ocaml.Prelude.{◌≡◌, ◌↔◌, refl, inl, inr, true, false, ◌&&◌, ◌||◌, arith, Bool-cases}
use mopsa_ocaml.Ints.Zarith.{Zarith, Laws}
use mopsa_ocaml.Ints.Bound.{Bound, minf, pinf, finite, leq, gt}
use mopsa_ocaml.Ints.Bound as B
use mopsa_ocaml.Ints.Bound.Order.{
  Le, leq-Le, geq-leq, gt-leq, Le_trans, min_lower, max_upper, min_greatest, max_least,
}
use mopsa_ocaml.Ints.Interval.{
  WithBot, bot, nb, Itv, included, contains, join, meet, of_bound_bot, is_pinf, is_minf,
}

module _ ⦃A : Zarith⦄ ⦃L : Laws A⦄ where
  abbrev pub In : A.Z → Itv → Type 0
  In x (a, b) = Le a (finite x) × Le (finite x) b

  both : (a b c d : Bound A.Z) → ((leq a b && leq c d) ≡ true) ↔ (Le a b × Le c d)
  both a b c d = (
    (λ h. ((leq-Le a b).0 (ground arith), (leq-Le c d).0 (ground arith))),
    λ (h, k). rw ((leq-Le a b).1 h, (leq-Le c d).1 k) refl,
  )

  pub contains-In : (x : A.Z) (i : Itv) → (contains x i ≡ true) ↔ In x i
  unfolding contains
  contains-In x (a, b) = both a (finite x) (finite x) b

  abbrev pub Within : Itv → Itv → Type 0
  Within (a, b) (c, d) = Le c a × Le b d

  pub included-Within : (i j : Itv) → (included i j ≡ true) ↔ Within i j
  unfolding included
  included-Within (a, b) (c, d) = rw (geq-leq a c) (both c a b d)

  pub In-Within : (x : A.Z) (i j : Itv) → In x i → Within i j → In x j
  In-Within x (a, b) (c, d) (h, k) (l, u) =
      (Le_trans c a (finite x) l h, Le_trans (finite x) b d k u)

  pub join-Within : (i j : Itv) → Within i (join i j) × Within j (join i j)
  unfolding join
  join-Within (a, b) (c, d) =
      let low = min_lower a c in let high = max_upper b d in ((low.0, high.0), (low.1, high.1))

  join_below :
      (i j k : Itv) → included i k ≡ true → included j k ≡ true → included (join i j) k ≡ true
  unfolding join
  join_below (a, b) (c, d) (e, f) h l =
      let (low, high) = (included-Within (a, b) (e, f)).0 h in
      let (low', high') = (included-Within (c, d) (e, f)).0 l in
      (included-Within (join (a, b) (c, d)) (e, f)).1
        (min_greatest a c e low low', max_least b d f high high')

  Within-trans : (i j k : Itv) → Within i j → Within j k → Within i k
  Within-trans (a, b) (c, d) (e, f) (h, l) (h', l') = (Le_trans e c a h' h, Le_trans b d f l l')

  -- For integers that obey Zarith's laws and any three pairs of bounds: the join of two of them is
  -- included in the third exactly where both of them are.
  pub join-included : (i j k : Itv) → included (join i j) k ≡ (included i k && included j k)
  join-included i j k = elim (Bool-cases (included (join i j) k)) [
    | inl holds ↦
        let within = (included-Within (join i j) k).0 holds in
        let (left, right) = join-Within i j in
        rw
          (
            holds,
            (included-Within i k).1 (Within-trans i (join i j) k left within),
            (included-Within j k).1 (Within-trans j (join i j) k right within),
          )
          refl
    | inr fails ↦ elim (Bool-cases (included i k)) [
      | inr out ↦ rw (fails, out) refl
      | inl left ↦ elim (Bool-cases (included j k)) [
        | inr out ↦ rw (fails, left, out) refl
        | inl right ↦ let holds = join_below i j k left right in cc
      ]
    ]
  ]

  -- The members of a possibly empty interval.
  abbrev pub Member : A.Z → WithBot Itv → Type 0
  Member x bot = ⊥
  Member x (nb i) = contains x i ≡ true

  below_finite : (a : Bound A.Z) (x : A.Z) → Le a (finite x) → is_pinf a ≡ false
  below_finite minf x h = refl
  below_finite pinf x h = absurd h
  below_finite (finite y) x h = refl

  above_finite : (b : Bound A.Z) (x : A.Z) → Le (finite x) b → is_minf b ≡ false
  above_finite minf x h = absurd h
  above_finite pinf x h = refl
  above_finite (finite y) x h = refl

  pub of_bound_bot-Member : (x : A.Z) (a b : Bound A.Z) → Member x (of_bound_bot a b) ↔ In x (a, b)
  unfolding of_bound_bot gt
  of_bound_bot-Member x a b = (
    (λ h. elim (Bool-cases (gt a b || is_pinf a || is_minf b)) [
      | inl empty ↦ absurd (rw empty at h)
      | inr full ↦ (contains-In x (a, b)).0 (rw full at h)
    ]),
    λ (h, k).
        let ordered = (leq-Le a b).1 (Le_trans a (finite x) b h k) in
        rw (gt-leq a b, ordered, below_finite a x h, above_finite b x k)
          ((contains-In x (a, b)).1 (h, k)),
  )

  -- For integers that obey Zarith's laws, any pairs of bounds and any integer: it is a member of
  -- their meet exactly where both contain it.
  pub meet-contains :
      (x : A.Z) (i j : Itv) → Member x (meet i j) ↔ ((contains x i ≡ true) × (contains x j ≡ true))
  unfolding meet
  meet-contains x (a, b) (c, d) =
      let low = max_upper a c in
      let high = min_lower b d in
      let found = of_bound_bot-Member x (B.max a c) (B.min b d) in
      (
        (λ h.
            let (l, u) = found.0 h in
            (
              (contains-In x (a, b)).1 (
                Le_trans a (B.max a c) (finite x) low.0 l,
                Le_trans (finite x) (B.min b d) b u high.0,
              ),
              (contains-In x (c, d)).1 (
                Le_trans c (B.max a c) (finite x) low.1 l,
                Le_trans (finite x) (B.min b d) d u high.1,
              ),
            )),
        λ (h, k).
            let (l, u) = (contains-In x (a, b)).0 h in
            let (l', u') = (contains-In x (c, d)).0 k in
            found.1 (max_least a c (finite x) l l', min_greatest b d (finite x) u u'),
      )
