-- ===== src/Ints/Loops/Delay.antt =====
-- lfp with the widening delay 1, on a body for which it does not end.
use mopsa_ocaml.Prelude.{
  ℕ, zero, suc, ℤ, pos, negsuc, ◌+◌, ◌≡◌, ◌≢◌, refl, true, false, arith, none,
}
use mopsa_ocaml.Prelude.Signed.{◌+ℤ◌, ◌-ℤ◌, ◌≤ℤ◌, signed}
use mopsa_ocaml.Ints.Sample.{ints, ints_laws}
use mopsa_ocaml.Ints.Bound.{Bound, minf, pinf, finite}
use mopsa_ocaml.Ints.Bound as B
use mopsa_ocaml.Ints.Bound.Order.{Le, Le_pinf, Le_trans, min_lower, min_greatest}
use mopsa_ocaml.Ints.Interval.Lattice.{included-Within}
use mopsa_ocaml.Ints.Interval.{WithBot, bot, nb, Itv, included_bot, join_bot, widen_bot}
use mopsa_ocaml.Ints.Loops.{lfp}
use mopsa_ocaml.Ints.Loops.Ends.{intervals, Monotone}

-- The lower bound falls where there is no upper one. The upper bound grows up to ten more than
-- the negation of the lower one.
unfoldable pub creeping : WithBot Itv → WithBot Itv
creeping bot = bot
creeping (nb (pinf, b)) = bot
creeping (nb (a, minf)) = bot
creeping (nb (minf, b)) = nb (minf, pinf)
creeping (nb (finite l, pinf)) = nb (finite (l -ℤ pos 1), finite (pos 10 -ℤ l))
creeping (nb (finite l, finite u)) =
    nb (finite l, B.min (finite (u +ℤ pos 1)) (finite (pos 10 -ℤ l)))

-- The flow after a round with a delay, k rounds later.
abbrev crept : ℕ → WithBot Itv
crept k = nb (finite (negsuc k), finite (pos (10 + k)))

-- The flow after a widening.
abbrev widened : ℕ → WithBot Itv
widened k = nb (finite (negsuc k), pinf)

abbrev pub start : WithBot Itv
start = nb (finite (pos 0), finite (pos 0))

creeping-crept :
    (k : ℕ) → join_bot start (creeping (crept k)) ≡ nb (finite (negsuc k), finite (pos (11 + k)))
unfolding creeping join_bot ◌+ℤ◌ ◌-ℤ◌
creeping-crept k = ground arith

creeping-widened : (k : ℕ) → join_bot start (creeping (widened k)) ≡ crept (suc k)
unfolding creeping join_bot ◌+ℤ◌ ◌-ℤ◌
creeping-widened k = ground arith

grown : (k : ℕ) → included_bot (nb (finite (negsuc k), finite (pos (11 + k)))) (crept k) ≡ false
unfolding included_bot
grown k = ground arith

fallen : (k : ℕ) → included_bot (crept (suc k)) (widened k) ≡ false
unfolding included_bot
fallen k = ground arith

widens : (k : ℕ) → widen_bot (crept k) (nb (finite (negsuc k), finite (pos (11 + k)))) ≡ widened k
unfolding widen_bot
widens k = ground arith

rounds :
    (fuel : ℕ)
    → ((k : ℕ) → lfp intervals 1 creeping start fuel 0 (crept k) ≡ none)
      × ((k : ℕ) → lfp intervals 1 creeping start fuel 1 (widened k) ≡ none)
unfolding lfp
rounds zero = (λ k. refl, λ k. refl)
rounds (suc fuel) =
    let (after_delay, after_widening) = rounds fuel in
    (
      (λ k. rw (creeping-crept k, grown k, widens k) (after_widening k)),
      λ k. rw (creeping-widened k, fallen k) (after_delay (suc k)),
    )

first_rounds :
    (fuel : ℕ)
    → ((k : ℕ) → lfp intervals 1 creeping start fuel 0 (crept k) ≡ none)
    → lfp intervals 1 creeping start (suc (suc (suc fuel))) 1 start ≡ none
unfolding lfp creeping join_bot included_bot widen_bot ◌+ℤ◌ ◌-ℤ◌
first_rounds fuel h = h 0

-- `creeping` on non-empty intervals with a finite lower bound.
creeping-Within :
    (p q : ℤ) (b d : Bound ℤ)
    → q ≤ℤ p
    → Le b d
    → included_bot (creeping (nb (finite p, b))) (creeping (nb (finite q, d))) ≡ true
unfolding included_bot creeping
creeping-Within p q minf d h k = refl
creeping-Within p q (finite u) minf h k = absurd k
creeping-Within p q pinf minf h k = absurd k
creeping-Within p q pinf (finite v) h k = absurd k
creeping-Within p q pinf pinf h k =
    (included-Within (finite (p -ℤ pos 1), finite (pos 10 -ℤ p))
        (finite (q -ℤ pos 1), finite (pos 10 -ℤ q))).1
      (omega signed, omega signed)
creeping-Within p q (finite u) pinf h k =
    let least = B.min (finite (u +ℤ pos 1)) (finite (pos 10 -ℤ p)) in
    let low = min_lower (finite (u +ℤ pos 1)) (finite (pos 10 -ℤ p)) in
    (included-Within (finite p, least) (finite (q -ℤ pos 1), finite (pos 10 -ℤ q))).1 (
      omega signed,
      Le_trans least (finite (pos 10 -ℤ p)) (finite (pos 10 -ℤ q)) low.1 (omega signed),
    )
creeping-Within p q (finite u) (finite v) h k =
    let least = B.min (finite (u +ℤ pos 1)) (finite (pos 10 -ℤ p)) in
    let low = min_lower (finite (u +ℤ pos 1)) (finite (pos 10 -ℤ p)) in
    (included-Within (finite p, least)
        (finite q, B.min (finite (v +ℤ pos 1)) (finite (pos 10 -ℤ q)))).1
      (
        h,
        min_greatest (finite (v +ℤ pos 1)) (finite (pos 10 -ℤ q)) least
            (Le_trans least (finite (u +ℤ pos 1)) (finite (v +ℤ pos 1)) low.0 (omega signed))
            (Le_trans least (finite (pos 10 -ℤ p)) (finite (pos 10 -ℤ q)) low.1 (omega signed)),
      )

-- All is included in what `creeping` makes of an interval without a lower bound.
creeping-top :
    (i : WithBot Itv) (b d : Bound ℤ)
    → Le b d
    → b ≢ minf
    → included_bot i (creeping (nb (minf, d))) ≡ true
unfolding included_bot creeping
creeping-top bot b d k full = refl
creeping-top (nb (a, c)) minf d k full = absurd (full refl)
creeping-top (nb (a, c)) (finite u) minf k full = absurd k
creeping-top (nb (a, c)) (finite u) (finite v) k full =
    (included-Within (a, c) (minf, pinf)).1 (tt, Le_pinf c)
creeping-top (nb (a, c)) (finite u) pinf k full =
    (included-Within (a, c) (minf, pinf)).1 (tt, Le_pinf c)
creeping-top (nb (a, c)) pinf minf k full = absurd k
creeping-top (nb (a, c)) pinf (finite v) k full = absurd k
creeping-top (nb (a, c)) pinf pinf k full = (included-Within (a, c) (minf, pinf)).1 (tt, Le_pinf c)

creeping_bounds :
    (a b c d : Bound ℤ)
    → Le c a
    → Le b d
    → included_bot (creeping (nb (a, b))) (creeping (nb (c, d))) ≡ true
unfolding included_bot creeping
creeping_bounds pinf b c d h k = refl
creeping_bounds minf minf c d h k = refl
creeping_bounds (finite p) minf c d h k = refl
creeping_bounds minf (finite u) minf d h k = creeping-top (nb (minf, pinf)) (finite u) d k (cc)
creeping_bounds minf (finite u) (finite q) d h k = absurd h
creeping_bounds minf (finite u) pinf d h k = absurd h
creeping_bounds minf pinf minf d h k = creeping-top (nb (minf, pinf)) pinf d k (cc)
creeping_bounds minf pinf (finite q) d h k = absurd h
creeping_bounds minf pinf pinf d h k = absurd h
creeping_bounds (finite p) (finite u) minf d h k =
    creeping-top (creeping (nb (finite p, finite u))) (finite u) d k (cc)
creeping_bounds (finite p) pinf minf d h k =
    creeping-top (creeping (nb (finite p, pinf))) pinf d k (cc)
creeping_bounds (finite p) (finite u) (finite q) d h k = creeping-Within p q (finite u) d h k
creeping_bounds (finite p) pinf (finite q) d h k = creeping-Within p q pinf d h k
creeping_bounds (finite p) (finite u) pinf d h k = absurd h
creeping_bounds (finite p) pinf pinf d h k = absurd h

-- `creeping` is monotone.
creeping_mono : Monotone creeping
unfolding included_bot creeping
creeping_mono bot j h = refl
creeping_mono (nb i) bot h = cc
creeping_mono (nb (a, b)) (nb (c, d)) h =
    let (low, high) = (included-Within (a, b) (c, d)).0 h in creeping_bounds a b c d low high

never_ends : (fuel : ℕ) → lfp intervals 1 creeping start fuel 1 start ≡ none
unfolding lfp creeping join_bot included_bot widen_bot ◌+ℤ◌ ◌-ℤ◌
never_ends zero = refl
never_ends (suc zero) = refl
never_ends (suc (suc zero)) = refl
never_ends (suc (suc (suc fuel))) = first_rounds fuel (rounds fuel).0

-- On intervals of the integers: `creeping` is monotone, but with it as the loop's body and the
-- widening delay 1, lfp does not return from the interval [0, 0] within any number of rounds.
pub lfp-creeping :
    (fuel : ℕ) → Monotone creeping × (lfp intervals 1 creeping start fuel 1 start ≡ none)
lfp-creeping fuel = (creeping_mono, never_ends fuel)
