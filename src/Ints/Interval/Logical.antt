-- ===== src/Ints/Interval/Logical.antt =====
-- The comparisons of utils/itvUtils/intItv.ml, whose results are intervals of 0 and 1.
pub mod Answered
use mopsa_ocaml.Prelude.{Bool, true, false, not, ◌&&◌, Option, none, some}
use mopsa_ocaml.Ints.Zarith.{Zarith}
use mopsa_ocaml.Ints.Bound.{leq, lt, geq, gt}
use mopsa_ocaml.Ints.Bound as B
use mopsa_ocaml.Ints.Interval.{Itv, zero, one, zero_one, intersect}

module _ ⦃A : Zarith⦄ where
  unfoldable pub equal : Itv → Itv → Bool
  unfolding B.equal
  equal (a, b) (a', b') = B.equal a a' && B.equal b b'

  unfoldable pub is_singleton : Itv → Bool
  unfolding B.equal
  is_singleton (a, b) = B.equal a b

  -- `none` where the code fails.
  unfoldable pub to_bool : Bool → Bool → Option Itv
  unfolding zero one zero_one
  to_bool true false = some zero
  to_bool false true = some one
  to_bool true true = some zero_one
  to_bool false false = none

  unfoldable pub log_eq : Itv → Itv → Option Itv
  unfolding to_bool intersect
  log_eq ab ab' = to_bool (not (equal ab ab' && is_singleton ab)) (intersect ab ab')

  unfoldable pub log_leq : Itv → Itv → Option Itv
  unfolding to_bool
  log_leq (a, b) (a', b') = to_bool (gt b a') (leq a b')

  unfoldable pub log_geq : Itv → Itv → Option Itv
  unfolding to_bool
  log_geq (a, b) (a', b') = to_bool (lt a b') (geq b a')

  unfoldable pub log_lt : Itv → Itv → Option Itv
  unfolding to_bool
  log_lt (a, b) (a', b') = to_bool (geq b a') (lt a b')

  unfoldable pub log_gt : Itv → Itv → Option Itv
  unfolding to_bool
  log_gt (a, b) (a', b') = to_bool (leq a b') (gt b a')

  unfoldable pub log_neq : Itv → Itv → Option Itv
  unfolding to_bool intersect
  log_neq ab ab' = to_bool (intersect ab ab') (not (equal ab ab' && is_singleton ab))
