-- ===== src/Ints/Interval.antt =====
-- utils/itvUtils/intItv.ml: intervals of big integers. What raises Invalid_argument gives `none`.

pub mod Forward
pub mod Lattice
pub mod Widen
pub mod Sums
pub mod Corners
pub mod Product
pub mod Range
pub mod Wrap
pub mod Division
pub mod Magnitude
pub mod Residue
pub mod Remainder
pub mod Filter
pub mod Logical
pub mod Missed
use mopsa_ocaml.Prelude.{
  Bool, true, false, not, ◌&&◌, ◌||◌, Option, none, some, List, [], ◌∷◌, if◌then◌else◌,
}
use mopsa_ocaml.Ints.Zarith.{Zarith}
use mopsa_ocaml.Ints.Bound.{
  Bound, minf, pinf, finite, not_above, level, leq, lt, geq, gt, equal, sign,
}
use mopsa_ocaml.Ints.Bound as B

-- `with_bot` of utils/core/bot.ml.
pub data WithBot (T : Type 0) : Type 0 where
  bot : WithBot T
  nb : T → WithBot T

abbrev pub bot_neutral2 : {T : Type 0} → (T → T → T) → WithBot T → WithBot T → WithBot T
bot_neutral2 f bot b = b
bot_neutral2 f (nb x) bot = nb x
bot_neutral2 f (nb x) (nb y) = nb (f x y)

abbrev pub bot_absorb2 : {S T R : Type 0} → (S → T → WithBot R) → WithBot S → WithBot T → WithBot R
bot_absorb2 f bot b = bot
bot_absorb2 f (nb x) bot = bot
bot_absorb2 f (nb x) (nb y) = f x y

abbrev pub bot_included : {S T : Type 0} → (S → T → Bool) → WithBot S → WithBot T → Bool
bot_included f bot b = true
bot_included f (nb x) bot = false
bot_included f (nb x) (nb y) = f x y

-- The exceptions of the operations on bounds are passed on.
infixl 5 ◌>>=◌
abbrev pub ◌>>=◌ : {S T : Type 0} → Option S → (S → Option T) → Option T
none >>= f = none
some x >>= f = f x

-- `a = B.PINF` and `b = B.MINF`.
abbrev pub is_pinf : {Z : Type 0} → Bound Z → Bool
is_pinf pinf = true
is_pinf minf = false
is_pinf (finite x) = false

abbrev pub is_minf : {Z : Type 0} → Bound Z → Bool
is_minf minf = true
is_minf pinf = false
is_minf (finite x) = false

module _ ⦃A : Zarith⦄ where
  -- A lower and an upper bound.
  abbrev pub Itv : Type 0
  Itv = Bound A.Z × Bound A.Z

  unfoldable pub is_valid : Itv → Bool
  unfolding leq
  is_valid (a, b) = leq a b && not (is_pinf a) && not (is_minf b)

  unfoldable pub of_bound_bot : Bound A.Z → Bound A.Z → WithBot Itv
  unfolding gt
  of_bound_bot a b = if gt a b || is_pinf a || is_minf b then bot else nb (a, b)

  unfoldable pub cst : A.Z → Itv
  cst c = (finite c, finite c)

  unfoldable pub zero : Itv
  unfolding cst
  zero = cst A.zero

  unfoldable pub one : Itv
  unfolding cst
  one = cst A.one

  unfoldable pub zero_one : Itv
  zero_one = (finite A.zero, finite A.one)

  unfoldable pub zero_inf : Itv
  zero_inf = (finite A.zero, pinf)

  unfoldable pub minf_zero : Itv
  minf_zero = (minf, finite A.zero)

  unfoldable pub minf_inf : Itv
  minf_inf = (minf, pinf)

  unfoldable pub included : Itv → Itv → Bool
  unfolding geq leq
  included (a, b) (a', b') = geq a a' && leq b b'

  unfoldable pub included_bot : WithBot Itv → WithBot Itv → Bool
  unfolding included
  included_bot a b = bot_included included a b

  unfoldable pub intersect : Itv → Itv → Bool
  unfolding leq
  intersect (a, b) (a', b') = leq a b' && leq a' b

  unfoldable pub contains : A.Z → Itv → Bool
  unfolding leq
  contains x (a, b) = leq a (finite x) && leq (finite x) b

  unfoldable pub contains_zero : Itv → Bool
  unfolding sign
  contains_zero (a, b) = B.is_negative a && B.is_positive b

  unfoldable pub contains_nonzero : Itv → Bool
  unfolding equal
  contains_nonzero (a, b) = not (equal a B.zero) || not (equal b B.zero)

  unfoldable pub join : Itv → Itv → Itv
  unfolding B.min B.max
  join (a, b) (a', b') = (B.min a a', B.max b b')

  unfoldable pub join_bot : WithBot Itv → WithBot Itv → WithBot Itv
  unfolding join
  join_bot a b = bot_neutral2 join a b

  unfoldable pub join_onto : WithBot Itv → List Itv → WithBot Itv
  unfolding join_bot
  join_onto acc [] = acc
  join_onto acc (b ∷ l) = join_onto (join_bot acc (nb b)) l

  unfoldable pub join_list : List Itv → WithBot Itv
  unfolding join_onto
  join_list l = join_onto bot l

  unfoldable pub meet : Itv → Itv → WithBot Itv
  unfolding of_bound_bot B.min B.max
  meet (a, b) (a', b') = of_bound_bot (B.max a a') (B.min b b')

  unfoldable pub meet_bot : WithBot Itv → WithBot Itv → WithBot Itv
  unfolding meet
  meet_bot a b = bot_absorb2 meet a b

  unfoldable pub widen : Itv → Itv → Itv
  unfolding lt gt
  widen (a, b) (a', b') = ((if lt a' a then minf else a), (if gt b' b then pinf else b))

  unfoldable pub widen_bot : WithBot Itv → WithBot Itv → WithBot Itv
  unfolding widen
  widen_bot a b = bot_neutral2 widen a b

  unfoldable pub positive : Itv → WithBot Itv
  unfolding meet zero_inf
  positive a = meet a zero_inf

  unfoldable pub negative : Itv → WithBot Itv
  unfolding meet minf_zero
  negative a = meet a minf_zero

  unfoldable pub meet_zero : Itv → WithBot Itv
  unfolding meet zero
  meet_zero a = meet a zero

  abbrev nonzero_case : Bool → Bool → Bound A.Z → Bound A.Z → WithBot Itv
  nonzero_case true true a b = bot
  nonzero_case true false a b = nb (B.succ a, b)
  nonzero_case false true a b = nb (a, B.pred b)
  nonzero_case false false a b = nb (a, b)

  unfoldable pub meet_nonzero : Itv → WithBot Itv
  unfolding B.is_zero
  meet_nonzero (a, b) = nonzero_case (B.is_zero a) (B.is_zero b) a b
