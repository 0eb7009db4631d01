-- ===== src/Ints/Tests.antt =====
-- Instances of the theorems on the integers, and the intervals' operations on a few of them.
use mathlib.Core.Path.{◌≡◌}
use mopsa_ocaml.Prelude.{ℤ, pos, negsuc, ◌≡◌, ◌&&◌, ◌↔◌, refl, true, false, none, some, arith}
use mopsa_ocaml.Prelude.Signed.{◌+ℤ◌, ◌-ℤ◌, ◌*ℤ◌, ◌≤ℤ◌, signed}
use mopsa_ocaml.Ints.Sample.{ints, ints_laws}
use mopsa_ocaml.Ints.Bound.{minf, pinf, finite}
use mopsa_ocaml.Ints.Interval.{
  WithBot, bot, nb, Itv, included, included_bot, contains, join, join_bot, meet, cst,
}
use mopsa_ocaml.Ints.Interval.Forward.{add, mul, wrap, pow, shift_right}
use mopsa_ocaml.Ints.Interval.{meet_bot, widen_bot, zero_inf}
use mopsa_ocaml.Ints.Interval.Forward.{succ}
use mopsa_ocaml.Ints.Interval.Lattice.{Member, join-included, meet-contains}
use mopsa_ocaml.Ints.Interval.Sums.{add-contains}
use mopsa_ocaml.Ints.Interval.Product.{mul-contains}
use mopsa_ocaml.Ints.Interval.Division.{div-contains}
use mopsa_ocaml.Ints.Interval.Forward.{div}
use mopsa_ocaml.Prelude.{◌≢◌}
use mopsa_ocaml.Stub.Numbers.Divide.{quotient}
use mopsa_ocaml.Ints.Interval.Remainder.{rem-contains}
use mopsa_ocaml.Ints.Interval.Forward.{rem}
use mopsa_ocaml.Stub.Numbers.Divide.{remainder}
use mopsa_ocaml.Ints.Interval.Filter.Orders.{Comparison, Holds, filter, Kept}
use mopsa_ocaml.Ints.Interval.Filter.Kept.{filter-Kept}
use mopsa_ocaml.Ints.Interval.Logical.Answered.{log, answer, log-contains}
use mopsa_ocaml.Ints.Interval.Sums.{sub-contains}
use mopsa_ocaml.Ints.Interval.Forward.{sub}
use mopsa_ocaml.Prelude.Signed.{◌-ℤ◌}
use mopsa_ocaml.Ints.Interval.Wrap.{wrap-contains}
use mopsa_ocaml.Ints.Interval.Missed.{pow-contains_zero, shift_right-negative}
use mopsa_ocaml.Ints.Loops.{lfp}
use mopsa_ocaml.Ints.Loops.Ends.{intervals, Monotone, lfp_total, lfp-included}
use mopsa_ocaml.Ints.Loops.Delay.{creeping, start, lfp-creeping}

abbrev minus_two : ℤ
minus_two = negsuc 1

abbrev around : Itv
around = (finite minus_two, finite (pos 3))

abbrev above_one : Itv
above_one = (finite (pos 1), pinf)

in_around : contains minus_two around ≡ true
unfolding contains
in_around = refl

in_above : contains (pos 5) above_one ≡ true
unfolding contains
in_above = refl

join-included_example :
    included (join around above_one) above_one
    ≡ (included around above_one && included above_one above_one)
join-included_example = join-included around above_one above_one

meet-contains_example :
    Member (pos 2) (meet around above_one)
    ↔ ((contains (pos 2) around ≡ true) × (contains (pos 2) above_one ≡ true))
meet-contains_example = meet-contains (pos 2) around above_one

add-contains_example :
    (k : Itv) × (add around above_one ≡ some k) × (contains (minus_two +ℤ pos 5) k ≡ true)
add-contains_example = add-contains around above_one minus_two (pos 5) in_around in_above

sub-contains_example :
    (k : Itv) × (sub around above_one ≡ some k) × (contains (minus_two -ℤ pos 5) k ≡ true)
sub-contains_example = sub-contains around above_one minus_two (pos 5) in_around in_above

mul-contains_example :
    (k : Itv) × (mul around above_one ≡ some k) × (contains (minus_two *ℤ pos 5) k ≡ true)
mul-contains_example = mul-contains around above_one minus_two (pos 5) in_around in_above

-- A divisor of either sign.
nonzero_two : minus_two ≢ pos 0
nonzero_two e = cc

div-contains_example :
    (k : WithBot Itv) × (div above_one around ≡ some k) × Member (quotient (pos 5) minus_two) k
div-contains_example =
    div-contains above_one around (pos 5) minus_two in_above in_around nonzero_two

rem-contains_example :
    (k : WithBot Itv) × (rem above_one around ≡ some k) × Member (remainder (pos 5) minus_two) k
rem-contains_example =
    rem-contains above_one around (pos 5) minus_two in_above in_around nonzero_two

below_five : Holds Comparison.lt minus_two (pos 5)
below_five = omega arith

filter-Kept_example : Kept minus_two (pos 5) (filter Comparison.lt around above_one)
filter-Kept_example =
    filter-Kept Comparison.lt around above_one minus_two (pos 5) in_around in_above below_five

log-contains_example :
    (k : Itv) × (log Comparison.geq around above_one ≡ some k) × (contains (answer false) k ≡ true)
log-contains_example =
    log-contains Comparison.geq false around above_one minus_two (pos 5) in_around in_above
      below_five

-- An eight-bit signed type.
abbrev lowest : ℤ
lowest = negsuc 127

abbrev highest : ℤ
highest = pos 127

lowest_first : lowest ≤ℤ highest
lowest_first = omega signed

abbrev past : Itv
past = (finite (pos 120), finite (pos 200))

in_past : contains (pos 130) past ≡ true
unfolding contains
in_past = refl

in_range : contains (negsuc 125) (finite lowest, finite highest) ≡ true
unfolding contains
in_range = refl

congruent : pos 130 ≡ (((highest -ℤ lowest) +ℤ pos 1) *ℤ pos 1) +ℤ negsuc 125
unfolding ◌+ℤ◌ ◌-ℤ◌ ◌*ℤ◌
congruent = refl

wrap-contains_example :
    (k : Itv) × (wrap past lowest highest ≡ some k)
    × (contains (negsuc 125) k ≡ true)
    × (included k (finite lowest, finite highest) ≡ true)
wrap-contains_example =
    wrap-contains lowest highest lowest_first past (pos 130) (negsuc 125) (pos 1) in_past in_range
      congruent

pow-contains_zero_example :
    (contains (pos 0) (finite (negsuc 2), finite (pos 3)) ≡ true)
    × (pos 0 *ℤ (pos 0 *ℤ pos 1) ≡ pos 0)
    × ((k : Itv) × (pow (finite (negsuc 2), finite (pos 3)) (cst (pos 2)) ≡ some k)
        × (contains (pos 0) k ≡ false))
pow-contains_zero_example = pow-contains_zero (pos 3) (pos 2) (omega arith) refl

shift_right-negative_example :
    (k : Itv) × (shift_right (cst (negsuc 4)) (cst (pos 4611686018427387904)) ≡ some (nb k))
    × (contains (negsuc 0) k ≡ false)
shift_right-negative_example =
    shift_right-negative (negsuc 4) (pos 4611686018427387904) (negsuc 0) (omega arith) (omega arith)
      refl (omega arith)

-- The body of a loop that adds one to a counter as long as it is at most 9.
abbrev bump : WithBot Itv → WithBot Itv
bump bot = bot
bump (nb i) = nb (succ i)

abbrev counting : WithBot Itv → WithBot Itv
counting i = bump (meet_bot i (nb (minf, finite (pos 9))))

abbrev zero_first : WithBot Itv
zero_first = nb (cst (pos 0))

lfp_total_example :
    (last : WithBot Itv) × (lfp intervals 0 counting zero_first 4 0 zero_first
      ≡ some (join_bot zero_first (counting last)))
    × (included_bot (join_bot zero_first (counting last)) last ≡ true)
lfp_total_example = lfp_total counting zero_first zero_first

counted :
    lfp intervals 0 counting zero_first 4 0 zero_first ≡ some (nb (finite (pos 0), finite (pos 10)))
unfolding lfp meet_bot join_bot widen_bot included_bot cst succ ◌+ℤ◌
counted = refl

-- The body of a loop that widens its environment to the one from 0 on.
abbrev constant : WithBot Itv → WithBot Itv
constant i = nb zero_inf

constant-Monotone : Monotone constant
unfolding included_bot zero_inf
constant-Monotone i j h = refl

constant_result : lfp intervals 0 constant zero_first 4 0 zero_first ≡ some (nb zero_inf)
unfolding lfp join_bot widen_bot included_bot cst zero_inf
constant_result = refl

lfp-included_example :
    (included_bot zero_first (nb zero_inf) ≡ true)
    × (included_bot (constant (nb zero_inf)) (nb zero_inf) ≡ true)
lfp-included_example =
    lfp-included constant zero_first zero_first (nb zero_inf) constant-Monotone constant_result

lfp-creeping_example : Monotone creeping × (lfp intervals 1 creeping start 20 1 start ≡ none)
lfp-creeping_example = lfp-creeping 20
