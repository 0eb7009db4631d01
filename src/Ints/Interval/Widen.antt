-- ===== src/Ints/Interval/Widen.antt =====
-- The widening of intervals.
use mopsa_ocaml.Prelude.{ℕ, ◌≤◌, ◌<◌, ◌+◌, ◌≡◌, inl, inr, false, arith, Bool-cases, if◌then◌else◌}
use mopsa_ocaml.Ints.Zarith.{Zarith, Laws}
use mopsa_ocaml.Ints.Bound.{Bound, minf, pinf, finite, leq, lt, gt}
use mopsa_ocaml.Ints.Bound.Order.{leq-Le, lt-leq, gt-leq, geq-leq, Le_pinf}
use mopsa_ocaml.Ints.Interval.{WithBot, bot, nb, Itv, included, included_bot, widen, widen_bot}

module _ ⦃A : Zarith⦄ ⦃L : Laws A⦄ where
  -- How many bounds are not infinite.
  abbrev open_low : Bound A.Z → ℕ
  open_low minf = 0
  open_low pinf = 1
  open_low (finite x) = 1

  abbrev open_high : Bound A.Z → ℕ
  open_high minf = 1
  open_high pinf = 0
  open_high (finite x) = 1

  abbrev pub rank : WithBot Itv → ℕ
  rank bot = 3
  rank (nb (a, b)) = open_low a + open_high b

  low_most : (a : Bound A.Z) → open_low a ≤ 1
  low_most a = ground arith

  high_most : (b : Bound A.Z) → open_high b ≤ 1
  high_most b = ground arith

  pub rank_small : (i : WithBot Itv) → rank i < 4
  rank_small bot = omega arith
  rank_small (nb (a, b)) = omega (arith, low_most a, high_most b)

  low_kept : (a a' : Bound A.Z) → open_low (if lt a' a then minf else a) ≤ open_low a
  low_kept a a' = ground arith

  high_kept : (b b' : Bound A.Z) → open_high (if gt b' b then pinf else b) ≤ open_high b
  high_kept b b' = ground arith

  low_falls :
      (a a' : Bound A.Z) → leq a a' ≡ false → open_low (if lt a' a then minf else a) < open_low a
  low_falls minf a' h = absurd (ground (arith, (leq-Le minf a').1 tt))
  low_falls pinf a' h = rw (lt-leq a' pinf, h) (omega arith)
  low_falls (finite x) a' h = rw (lt-leq a' (finite x), h) (omega arith)

  high_falls :
      (b b' : Bound A.Z) → leq b' b ≡ false → open_high (if gt b' b then pinf else b) < open_high b
  high_falls pinf b' h = absurd (ground (arith, (leq-Le b' pinf).1 (Le_pinf b')))
  high_falls minf b' h = rw (gt-leq b' minf, h) (omega arith)
  high_falls (finite x) b' h = rw (gt-leq b' (finite x), h) (omega arith)

  rank-widen : (i j : Itv) → included j i ≡ false → rank (nb (widen i j)) < rank (nb i)
  unfolding widen included
  rank-widen (a, b) (a', b') h = elim (Bool-cases (leq a a')) [
    | inl le ↦
        let out : leq b' b ≡ false = ground (arith, geq-leq a' a) in
        omega (arith, low_kept a a', high_falls b b' out)
    | inr gt ↦ omega (arith, low_falls a a' gt, high_kept b b')
  ]

  -- A widening by what is not included lowers the rank.
  pub rank-widen_bot :
      (i j : WithBot Itv) → included_bot j i ≡ false → rank (widen_bot i j) < rank i
  unfolding widen_bot included_bot
  rank-widen_bot i bot h = cc
  rank-widen_bot bot (nb (a, b)) h = omega (arith, low_most a, high_most b)
  rank-widen_bot (nb i) (nb j) h = rank-widen i j h
