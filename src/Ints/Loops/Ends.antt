-- ===== src/Ints/Loops/Ends.antt =====
-- lfp on intervals, with the widening delay 0, which is the default.
use mopsa_ocaml.Prelude.{ℕ, zero, suc, ◌<◌, ◌≡◌, refl, inl, inr, true, arith, some, Bool-cases}
use mopsa_ocaml.Ints.Zarith.{Zarith, Laws}
use mopsa_ocaml.Ints.Bound.Order.{Le_refl, Le_trans}
use mopsa_ocaml.Ints.Interval.{WithBot, bot, nb, Itv, included_bot, join, join_bot, widen_bot}
use mopsa_ocaml.Ints.Interval.Lattice.{included-Within, join-Within}
use mopsa_ocaml.Ints.Interval.Widen.{rank, rank_small, rank-widen_bot}
use mopsa_ocaml.Ints.Loops.{Lattice, lfp}

module _ ⦃A : Zarith⦄ where
  abbrev pub intervals : Lattice (WithBot Itv)
  intervals = record { subset = included_bot; join = join_bot; widen = widen_bot }

module _ ⦃A : Zarith⦄ ⦃L : Laws A⦄ where
  included_trans :
      (i j k : WithBot Itv)
      → included_bot i j ≡ true
      → included_bot j k ≡ true
      → included_bot i k ≡ true
  unfolding included_bot
  included_trans bot j k h l = refl
  included_trans (nb i) bot k h l = cc
  included_trans (nb i) (nb j) bot h l = cc
  included_trans (nb (a, b)) (nb (c, d)) (nb (e, f)) h l =
      let (low, high) = (included-Within (a, b) (c, d)).0 h in
      let (low', high') = (included-Within (c, d) (e, f)).0 l in
      (included-Within (a, b) (e, f)).1 (Le_trans e c a low' low, Le_trans b d f high high')

  included_refl : (i : WithBot Itv) → included_bot i i ≡ true
  unfolding included_bot
  included_refl bot = refl
  included_refl (nb (a, b)) = (included-Within (a, b) (a, b)).1 (Le_refl a, Le_refl b)

  join_bot_upper :
      (i j : WithBot Itv)
      → (included_bot i (join_bot i j) ≡ true) × (included_bot j (join_bot i j) ≡ true)
  unfolding included_bot join_bot
  join_bot_upper bot j = (refl, included_refl j)
  join_bot_upper (nb i) bot = (included_refl (nb i), refl)
  join_bot_upper (nb i) (nb j) =
      let (left, right) = join-Within i j in
      ((included-Within i (join i j)).1 left, (included-Within j (join i j)).1 right)

  abbrev pub Monotone : (WithBot Itv → WithBot Itv) → Type 0
  Monotone f = (i j : WithBot Itv) → included_bot i j ≡ true → included_bot (f i) (f j) ≡ true

  module _ (body : WithBot Itv → WithBot Itv) (init : WithBot Itv) where
    -- The result is what a round makes of a flow that includes it.
    lfp_ends :
        (fuel : ℕ) (flow : WithBot Itv)
        → rank flow < fuel
        → (last : WithBot Itv) × (lfp intervals 0 body init fuel 0 flow
            ≡ some (join_bot init (body last)))
          × (included_bot (join_bot init (body last)) last ≡ true)
    unfolding lfp
    lfp_ends zero flow h = absurd (omega arith)
    lfp_ends (suc fuel) flow h = elim (Bool-cases (included_bot (join_bot init (body flow)) flow)) [
      | inl stable ↦ (flow, rw stable refl, stable)
      | inr growing ↦
          let falls = rank-widen_bot flow (join_bot init (body flow)) growing in
          let (last, ends, within) =
            lfp_ends fuel (widen_bot flow (join_bot init (body flow))) (omega arith) in
          (last, rw growing ends, within)
    ]

    -- On intervals, with the widening delay 0 and any function as the loop's body, monotone or not,
    -- and any entry and first flow: four rounds are enough for lfp to return, and what it returns
    -- is the join of the entry and the body's result on a flow that includes that join.
    pub lfp_total :
        (flow : WithBot Itv)
        → (last : WithBot Itv) × (lfp intervals 0 body init 4 0 flow
            ≡ some (join_bot init (body last)))
          × (included_bot (join_bot init (body last)) last ≡ true)
    lfp_total flow = lfp_ends 4 flow (rank_small flow)

    -- On intervals, with the widening delay 0 and a monotone body: what lfp returns within four
    -- rounds includes the entry, and includes the body's result on itself.
    pub lfp-included :
        (flow r : WithBot Itv)
        → Monotone body
        → lfp intervals 0 body init 4 0 flow ≡ some r
        → (included_bot init r ≡ true) × (included_bot (body r) r ≡ true)
    lfp-included flow r mono returned =
        let (last, ends, within) = lfp_total flow in
        let result : r ≡ join_bot init (body last) = ground (arith, returned, ends) in
        let (first, second) = join_bot_upper init (body last) in
        rw result (
          first,
          included_trans (body (join_bot init (body last))) (body last) (join_bot init (body last))
              (mono (join_bot init (body last)) last within) second,
        )
