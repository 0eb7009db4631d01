-- ===== src/Ints/Interval/Filter.antt =====
-- The filters of utils/itvUtils/intItv.ml: two intervals, where a comparison of their members holds.
pub mod Orders
pub mod Unequal
pub mod Kept
use mopsa_ocaml.Prelude.{Bool, true, false}
use mopsa_ocaml.Ints.Zarith.{Zarith}
use mopsa_ocaml.Ints.Bound.{Bound, equal}
use mopsa_ocaml.Ints.Bound as B
use mopsa_ocaml.Ints.Interval.{WithBot, bot, nb, Itv, of_bound_bot, meet}

abbrev pub bot_merge2 : {S T : Type 0} → WithBot S → WithBot T → WithBot (S × T)
bot_merge2 bot b = bot
bot_merge2 (nb x) bot = bot
bot_merge2 (nb x) (nb y) = nb (x, y)

module _ ⦃A : Zarith⦄ where
  unfoldable pub filter_leq : Itv → Itv → WithBot (Itv × Itv)
  unfolding of_bound_bot B.min B.max
  filter_leq (a, b) (a', b') =
      bot_merge2 (of_bound_bot a (B.min b b')) (of_bound_bot (B.max a a') b')

  unfoldable pub filter_geq : Itv → Itv → WithBot (Itv × Itv)
  unfolding of_bound_bot B.min B.max
  filter_geq (a, b) (a', b') =
      bot_merge2 (of_bound_bot (B.max a a') b) (of_bound_bot a' (B.min b b'))

  unfoldable pub filter_lt : Itv → Itv → WithBot (Itv × Itv)
  unfolding of_bound_bot B.min B.max B.pred B.succ
  filter_lt (a, b) (a', b') =
      bot_merge2 (of_bound_bot a (B.min b (B.pred b'))) (of_bound_bot (B.max (B.succ a) a') b')

  unfoldable pub filter_gt : Itv → Itv → WithBot (Itv × Itv)
  unfolding of_bound_bot B.min B.max B.pred B.succ
  filter_gt (a, b) (a', b') =
      bot_merge2 (of_bound_bot (B.max a (B.succ a')) b) (of_bound_bot a' (B.min (B.pred b) b'))

  abbrev pub both : WithBot Itv → WithBot (Itv × Itv)
  both bot = bot
  both (nb x) = nb (x, x)

  unfoldable pub filter_eq : Itv → Itv → WithBot (Itv × Itv)
  unfolding meet
  filter_eq ab ab' = both (meet ab ab')

  -- The cases by `equal a b`, `equal a' b'`, `equal a a'` and `equal b b'`.
  abbrev pub neq_case : Bool → Bool → Bool → Bool → Itv → Itv → WithBot (Itv × Itv)
  neq_case true true true _ ab ab' = bot
  neq_case true false true _ ab (a', b') = bot_merge2 (nb ab) (of_bound_bot (B.succ a') b')
  neq_case true false false true ab (a', b') = bot_merge2 (nb ab) (of_bound_bot a' (B.pred b'))
  neq_case false true true _ (a, b) ab' = bot_merge2 (of_bound_bot (B.succ a) b) (nb ab')
  neq_case false true false true (a, b) ab' = bot_merge2 (of_bound_bot a (B.pred b)) (nb ab')
  neq_case _ _ _ _ ab ab' = nb (ab, ab')

  unfoldable pub filter_neq : Itv → Itv → WithBot (Itv × Itv)
  unfolding equal of_bound_bot B.succ B.pred
  filter_neq (a, b) (a', b') =
      neq_case (equal a b) (equal a' b') (equal a a') (equal b b') (a, b) (a', b')
