-- ===== src/Ints/Interval/Forward.antt =====
-- The forward operations of utils/itvUtils/intItv.ml.
use mopsa_ocaml.Prelude.{Bool, true, false, ◌&&◌, Option, none, some, List, [], ◌∷◌, if◌then◌else◌}
use mopsa_ocaml.Ints.Zarith.{Zarith}
use mopsa_ocaml.Ints.Bound.{
  Bound, minf, pinf, finite, not_above, level, leq, lt, geq, gt, equal, sign,
}
use mopsa_ocaml.Ints.Bound as B
use mopsa_ocaml.Ints.Interval.{WithBot, bot, nb, Itv, ◌>>=◌, positive, join_list}

module _ ⦃A : Zarith⦄ where
  unfoldable pub neg : Itv → Itv
  unfolding B.neg
  neg (a, b) = (B.neg b, B.neg a)

  unfoldable pub abs : Itv → Itv
  unfolding neg B.is_negative B.max
  abs (a, b) =
      if not_above (sign a)
      then if not_above (sign b) then neg (a, b) else (B.zero, B.max (B.neg a) b)
      else (a, b)

  unfoldable pub succ : Itv → Itv
  unfolding B.succ
  succ (a, b) = (B.succ a, B.succ b)

  unfoldable pub pred : Itv → Itv
  unfolding B.pred
  pred (a, b) = (B.pred a, B.pred b)

  unfoldable pub add : Itv → Itv → Option Itv
  unfolding B.add
  add (a, b) (a', b') = do c ← B.add a a'; d ← B.add b b'; some (c, d)

  unfoldable pub sub : Itv → Itv → Option Itv
  unfolding B.sub
  sub (a, b) (a', b') = do c ← B.sub a b'; d ← B.sub b a'; some (c, d)

  -- The least and the greatest of the results at the four corners.
  unfoldable pub minmax4 : (Bound A.Z → Bound A.Z → Option (Bound A.Z)) → Itv → Itv → Option Itv
  unfolding B.min B.max
  minmax4 op (a, b) (c, d) = do
    x ← op a c
    y ← op a d
    z ← op b c
    t ← op b d
    some (B.min (B.min x y) (B.min z t), B.max (B.max x y) (B.max z t))

  unfoldable pub mul : Itv → Itv → Option Itv
  unfolding minmax4 B.mul
  mul ab ab' = minmax4 (λ x y. some (B.mul x y)) ab ab'

  -- `rem` by a divisor that `abs` made positive.
  unfoldable pub rem_positive : Itv → Itv → Option (WithBot Itv)
  unfolding B.is_zero gt lt equal B.neg B.pred B.div B.rem B.is_positive B.is_negative
  rem_positive (a, b) (a', b') =
      let m = B.pred b' in
      if B.is_zero b'
      then some bot
      else if gt a (B.neg a') && lt b a'
      then some (nb (a, b))
      else if equal a' b' && equal (B.div a a') (B.div b a')
      then (do p ← B.rem a a'; q ← B.rem b a'; some (nb (p, q)))
      else if B.is_positive a
      then some (nb (B.zero, m))
      else if B.is_negative b
      then some (nb (B.neg m, B.zero))
      else some (nb (B.neg m, m))

  unfoldable pub rem : Itv → Itv → Option (WithBot Itv)
  unfolding rem_positive abs
  rem ab ab' = rem_positive ab (abs ab')

  unfoldable pub pow : Itv → Itv → Option Itv
  unfolding minmax4 B.pow
  pow ab ab' = minmax4 B.pow ab ab'

  -- In front of the results so far.
  abbrev pub cons_if : Bool → Option Itv → Option (List Itv) → Option (List Itv)
  cons_if true m rest = do x ← m; l ← rest; some (x ∷ l)
  cons_if false m rest = rest

  unfoldable pub div_unmerged : Itv → Itv → Option (List Itv)
  unfolding minmax4 B.div
  div_unmerged ab (a', b') =
      cons_if (B.is_positive_strict b') (minmax4 (λ x y. some (B.div x y)) ab (B.max a' B.one, b'))
        (cons_if (B.is_negative_strict a')
          (minmax4 (λ x y. some (B.div x y)) ab (a', B.min b' B.minus_one)) (some []))

  unfoldable pub div : Itv → Itv → Option (WithBot Itv)
  unfolding div_unmerged join_list
  div a b = do l ← div_unmerged a b; some (join_list l)

  -- Z.ediv_rem gives Z.ediv and Z.erem at once. OCaml's own comparisons of Z.t are Z.compare.
  unfoldable pub wrap : Itv → A.Z → A.Z → Option Itv
  wrap (minf, b) lo up = some (finite lo, finite up)
  wrap (a, pinf) lo up = some (finite lo, finite up)
  wrap (finite aa, finite bb) lo up =
      let w = A.succ (A.sub up lo) in
      if leq (finite lo) (finite aa) && leq (finite bb) (finite up)
      then some (finite aa, finite bb)
      else if level (A.compare (A.ediv (A.sub aa lo) w) (A.ediv (A.sub bb lo) w))
      then some
          (finite (A.add (A.erem (A.sub aa lo) w) lo), finite (A.add (A.erem (A.sub bb lo) w) lo))
      else some (finite lo, finite up)
  wrap (a, b) lo up = none

  abbrev shift :
      (Bound A.Z → Bound A.Z → Option (Bound A.Z)) → Itv → WithBot Itv → Option (WithBot Itv)
  shift op ab bot = some bot
  shift op ab (nb ab'') = do r ← minmax4 op ab ab''; some (nb r)

  unfoldable pub shift_left : Itv → Itv → Option (WithBot Itv)
  unfolding positive minmax4 B.shift_left
  shift_left ab ab' = shift B.shift_left ab (positive ab')

  unfoldable pub shift_right : Itv → Itv → Option (WithBot Itv)
  unfolding positive minmax4 B.shift_right
  shift_right ab ab' = shift B.shift_right ab (positive ab')

  unfoldable pub bit_not : Itv → Itv
  unfolding pred neg
  bit_not ab = pred (neg ab)
