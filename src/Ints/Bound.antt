-- ===== src/Ints/Bound.antt =====
-- utils/itvUtils/intBound.ml: the big integers with two infinities. What raises Invalid_argument gives
-- `none`. Of the int that `sign` and `compare` return only the sign is kept.
pub mod Order
pub mod Signs
pub mod Product
pub mod Quotient
pub mod Division
pub mod Remainder
use Prim.Native.Nat.{Ordering}
use mopsa_ocaml.Prelude.{ℤ, Bool, true, false, not, Option, none, some, if◌then◌else◌}
use mopsa_ocaml.Ints.Zarith.{Zarith}

pub data Bound (Z : Type 0) : Type 0 where
  minf pinf : Bound Z
  finite : Z → Bound Z

-- `c <= 0`, `c < 0` and `c = 0`.
abbrev pub not_above : Ordering → Bool
not_above Ordering.gt = false
not_above Ordering.eq = true
not_above Ordering.lt = true

abbrev pub below : Ordering → Bool
below Ordering.lt = true
below Ordering.eq = false
below Ordering.gt = false

abbrev pub level : Ordering → Bool
level Ordering.eq = true
level Ordering.lt = false
level Ordering.gt = false

-- `-c`, and `c * d`.
abbrev pub opposite : Ordering → Ordering
opposite Ordering.lt = Ordering.gt
opposite Ordering.eq = Ordering.eq
opposite Ordering.gt = Ordering.lt

abbrev pub times : Ordering → Ordering → Ordering
times Ordering.lt d = opposite d
times Ordering.eq d = Ordering.eq
times Ordering.gt d = d

module _ ⦃A : Zarith⦄ where
  unfoldable pub zero : Bound A.Z
  zero = finite A.zero

  unfoldable pub one : Bound A.Z
  one = finite A.one

  unfoldable pub minus_one : Bound A.Z
  minus_one = finite A.minus_one

  unfoldable pub infinite : Ordering → Bound A.Z
  unfolding zero
  infinite Ordering.gt = pinf
  infinite Ordering.lt = minf
  infinite Ordering.eq = zero

  unfoldable pub sign : Bound A.Z → Ordering
  sign minf = Ordering.lt
  sign pinf = Ordering.gt
  sign (finite x) = A.sign x

  unfoldable pub compare : Bound A.Z → Bound A.Z → Ordering
  compare pinf pinf = Ordering.eq
  compare minf minf = Ordering.eq
  compare minf y = Ordering.lt
  compare x pinf = Ordering.lt
  compare pinf y = Ordering.gt
  compare x minf = Ordering.gt
  compare (finite x) (finite y) = A.compare x y

  unfoldable pub leq : Bound A.Z → Bound A.Z → Bool
  unfolding compare
  leq x y = not_above (compare x y)

  unfoldable pub lt : Bound A.Z → Bound A.Z → Bool
  unfolding compare
  lt x y = below (compare x y)

  unfoldable pub geq : Bound A.Z → Bound A.Z → Bool
  unfolding compare
  geq x y = not (below (compare x y))

  unfoldable pub gt : Bound A.Z → Bound A.Z → Bool
  unfolding compare
  gt x y = not (not_above (compare x y))

  -- Z.equal is true where Z.compare is 0.
  unfoldable pub equal : Bound A.Z → Bound A.Z → Bool
  equal (finite a) (finite b) = level (A.compare a b)
  equal minf minf = true
  equal pinf pinf = true
  equal x y = false

  unfoldable pub min : Bound A.Z → Bound A.Z → Bound A.Z
  unfolding leq
  min x y = if leq x y then x else y

  unfoldable pub max : Bound A.Z → Bound A.Z → Bound A.Z
  unfolding leq
  max x y = if leq x y then y else x

  unfoldable pub is_zero : Bound A.Z → Bool
  unfolding sign
  is_zero x = level (sign x)

  unfoldable pub is_positive : Bound A.Z → Bool
  unfolding sign
  is_positive x = not (below (sign x))

  unfoldable pub is_negative : Bound A.Z → Bool
  unfolding sign
  is_negative x = not_above (sign x)

  unfoldable pub is_positive_strict : Bound A.Z → Bool
  unfolding sign
  is_positive_strict x = not (not_above (sign x))

  unfoldable pub is_negative_strict : Bound A.Z → Bool
  unfolding sign
  is_negative_strict x = below (sign x)

  unfoldable pub neg : Bound A.Z → Bound A.Z
  neg minf = pinf
  neg pinf = minf
  neg (finite x) = finite (A.neg x)

  unfoldable pub succ : Bound A.Z → Bound A.Z
  succ (finite x) = finite (A.succ x)
  succ minf = minf
  succ pinf = pinf

  unfoldable pub pred : Bound A.Z → Bound A.Z
  pred (finite x) = finite (A.pred x)
  pred minf = minf
  pred pinf = pinf

  unfoldable pub add : Bound A.Z → Bound A.Z → Option (Bound A.Z)
  add pinf minf = none
  add minf pinf = none
  add pinf y = some pinf
  add x pinf = some pinf
  add minf y = some minf
  add x minf = some minf
  add (finite x) (finite y) = some (finite (A.add x y))

  unfoldable pub sub : Bound A.Z → Bound A.Z → Option (Bound A.Z)
  sub pinf pinf = none
  sub minf minf = none
  sub pinf y = some pinf
  sub x minf = some pinf
  sub minf y = some minf
  sub x pinf = some minf
  sub (finite x) (finite y) = some (finite (A.sub x y))

  unfoldable pub mul : Bound A.Z → Bound A.Z → Bound A.Z
  unfolding infinite sign
  mul (finite x) (finite y) = finite (A.mul x y)
  mul x y = infinite (times (sign x) (sign y))

  unfoldable pub div : Bound A.Z → Bound A.Z → Bound A.Z
  unfolding infinite zero
  div a pinf = zero
  div a minf = zero
  div pinf (finite y) = infinite (A.sign y)
  div minf (finite y) = infinite (opposite (A.sign y))
  div (finite x) (finite y) =
      if level (A.compare y A.zero) then infinite (A.sign x) else finite (A.div x y)

  -- Z.to_int raises Overflow where its argument is no int.
  unfoldable pub rem : Bound A.Z → Bound A.Z → Option (Bound A.Z)
  rem minf b = none
  rem pinf b = none
  rem (finite x) minf = some (finite x)
  rem (finite x) pinf = some (finite x)
  rem (finite x) (finite y) = if level (A.compare y A.zero) then none else some (finite (A.rem x y))

  unfoldable pub shift_left : Bound A.Z → Bound A.Z → Option (Bound A.Z)
  unfolding infinite sign
  shift_left pinf b = some pinf
  shift_left minf b = some minf
  shift_left (finite x) pinf = some (infinite (sign (finite x)))
  shift_left (finite x) minf = none
  shift_left (finite x) (finite y) =
      if below (A.compare y A.zero) then none else elim (A.to_int y) [
        | some n ↦ some (finite (A.shift_left x n))
        | none ↦ some (infinite (sign (finite x)))
      ]

  unfoldable pub shift_right : Bound A.Z → Bound A.Z → Option (Bound A.Z)
  unfolding zero
  shift_right pinf b = some pinf
  shift_right minf b = some minf
  shift_right (finite x) pinf = some zero
  shift_right (finite x) minf = none
  shift_right (finite x) (finite y) =
      if below (A.compare y A.zero)
      then none
      else elim (A.to_int y) [ some n ↦ some (finite (A.shift_right x n)) | none ↦ some zero ]

  unfoldable pub pow : Bound A.Z → Bound A.Z → Option (Bound A.Z)
  pow (finite x) (finite y) =
      if below (A.compare y A.zero)
      then none
      else elim (A.to_int y) [ some n ↦ some (finite (A.pow x n)) | none ↦ none ]
  pow x y = none
