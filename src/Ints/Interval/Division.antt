-- ===== src/Ints/Interval/Division.antt =====
-- Quotients of intervals.
use mopsa_ocaml.Prelude.{
  ℤ, pos, negsuc, ◌≡◌, ◌≢◌, ◌⊎◌, refl, inl, inr, Bool, true, false, Option, some, List, [], ◌∷◌,
  arith,
}
use mopsa_ocaml.Prelude.{zero, suc}
use mopsa_ocaml.Prelude.Signed.{◌≤ℤ◌}
use mopsa_ocaml.Ints.Zarith.{Zarith, Laws}
use mopsa_ocaml.Ints.Bound.{Bound, minf, pinf, finite}
use mopsa_ocaml.Ints.Bound as B
use mopsa_ocaml.Ints.Bound.Order.{Le, Le_trans, max_upper, max_least, min_lower, min_greatest}
use mopsa_ocaml.Ints.Bound.Division.{
  Positive, Negative, dividend_above, dividend_below, divisor_above-Between, divisor_below-Between,
  divided, nonzero_above, nonzero_below,
}
use mopsa_ocaml.Ints.Interval.{
  WithBot, bot, nb, Itv, contains, join, join_bot, join_onto, join_list,
}
use mopsa_ocaml.Ints.Interval.Forward.{minmax4, cons_if, div_unmerged, div}
use mopsa_ocaml.Ints.Interval.Lattice.{In, Within, contains-In, join-Within, Member}
use mopsa_ocaml.Ints.Interval.Corners.{minmax4-contains}

module _ ⦃A : Zarith⦄ ⦃L : Laws A⦄ where
  -- One of a list of intervals contains z.
  Found : A.Z → List Itv → Type 0
  Found z [] = ⊥
  Found z (k ∷ l) = (contains z k ≡ true) ⊎ Found z l

  contains-Within : (z : A.Z) (i j : Itv) → Within i j → contains z i ≡ true → contains z j ≡ true
  contains-Within z (a, b) (c, d) (h, l) found =
      let (low, high) = (contains-In z (a, b)).0 found in
      (contains-In z (c, d)).1 (Le_trans c a (finite z) h low, Le_trans (finite z) b d high l)

  join_bot-Member :
      (z : A.Z) (acc : WithBot Itv) (k : Itv)
      → (Member z acc) ⊎ (contains z k ≡ true)
      → Member z (join_bot acc (nb k))
  unfolding join_bot
  join_bot-Member z bot k (inl h) = absurd h
  join_bot-Member z bot k (inr h) = h
  join_bot-Member z (nb i) k (inl h) = contains-Within z i (join i k) (join-Within i k).0 h
  join_bot-Member z (nb i) k (inr h) = contains-Within z k (join i k) (join-Within i k).1 h

  join_onto-Member :
      (z : A.Z) (l : List Itv) (acc : WithBot Itv)
      → Member z acc ⊎ Found z l
      → Member z (join_onto acc l)
  unfolding Found join_onto
  join_onto-Member z [] acc (inl h) = h
  join_onto-Member z [] acc (inr h) = absurd h
  join_onto-Member z (k ∷ l) acc (inl h) =
      join_onto-Member z l (join_bot acc (nb k)) (inl (join_bot-Member z acc k (inl h)))
  join_onto-Member z (k ∷ l) acc (inr (inl h)) =
      join_onto-Member z l (join_bot acc (nb k)) (inl (join_bot-Member z acc k (inr h)))
  join_onto-Member z (k ∷ l) acc (inr (inr h)) = join_onto-Member z l (join_bot acc (nb k)) (inr h)

  strict_above :
      (d : Bound A.Z) (y : A.Z) → Positive y → Le (finite y) d → B.is_positive_strict d ≡ true
  unfolding B.is_positive_strict
  strict_above minf y h k = absurd k
  strict_above (finite w) y h k = ground (arith, L.sign_law w)
  strict_above pinf y h k = refl

  strict_below :
      (c : Bound A.Z) (y : A.Z) → Negative y → Le c (finite y) → B.is_negative_strict c ≡ true
  unfolding B.is_negative_strict
  strict_below minf y h k = refl
  strict_below (finite w) y h k = ground (arith, L.sign_law w)
  strict_below pinf y h k = absurd k

  -- The interval of the results, if it is asked for, in front of the others.
  some_front :
      (b : Bool) (k : Itv) (m : Option Itv) (l : List Itv) (z : A.Z)
      → m ≡ some k
      → (b ≡ true) × (contains z k ≡ true) ⊎ Found z l
      → (r : List Itv) × (cons_if b m (some l) ≡ some r) × Found z r
  unfolding Found
  some_front true k m l z e (inl (h, found)) = (k ∷ l, rw e refl, inl found)
  some_front true k m l z e (inr found) = (k ∷ l, rw e refl, inr found)
  some_front false k m l z e (inl (h, found)) = absurd (cc)
  some_front false k m l z e (inr found) = (l, refl, found)

  some_rest :
      (b : Bool) (k : Itv) (m : Option Itv) (l : List Itv)
      → m ≡ some k
      → (r : List Itv) × (cons_if b m (some l) ≡ some r)
  some_rest true k m l e = (k ∷ l, rw e refl)
  some_rest false k m l e = (l, refl)

  extremes : Itv → Itv → Option Itv
  extremes i j = minmax4 (λ p q. some (B.div p q)) i j

  extremes-some : (i j : Itv) → (k : Itv) × (extremes i j ≡ some k)
  unfolding extremes minmax4
  extremes-some (a, b) (c, d) = (_, refl)

  by-Positive :
      (a b c d : Bound A.Z) (x y : A.Z)
      → In x (a, b)
      → In y (c, d)
      → Positive y
      → (k : Itv) × (extremes (a, b) (B.max c B.one, d) ≡ some k) × (contains (A.div x y) k ≡ true)
  unfolding extremes
  by-Positive a b c d x y (xa, xb) (yc, yd) h =
      let first = (max_upper c B.one).1 in
      let low = max_least c B.one (finite y) yc (unfold B.one in rw L.value_one h) in
      minmax4-contains B.div a b (B.max c B.one) d (finite x) (finite y) (A.div x y)
        (divided x y (nonzero_above y h)).0 (dividend_above a b (finite x) y h xa xb)
        (divisor_above-Between a (B.max c B.one) d y first low yd)
        (divisor_above-Between b (B.max c B.one) d y first low yd)

  by-Negative :
      (a b c d : Bound A.Z) (x y : A.Z)
      → In x (a, b)
      → In y (c, d)
      → Negative y
      → (k : Itv) × (extremes (a, b) (c, B.min d B.minus_one) ≡ some k)
        × (contains (A.div x y) k ≡ true)
  unfolding extremes
  by-Negative a b c d x y (xa, xb) (yc, yd) h =
      let last = (min_lower d B.minus_one).1 in
      let high =
        min_greatest d B.minus_one (finite y) yd (unfold B.minus_one in rw L.value_minus_one h) in
      minmax4-contains B.div a b c (B.min d B.minus_one) (finite x) (finite y) (A.div x y)
        (divided x y (nonzero_below y h)).0 (dividend_below a b (finite x) y h xa xb)
        (divisor_below-Between a c (B.min d B.minus_one) y last high yc)
        (divisor_below-Between b c (B.min d B.minus_one) y last high yc)

  div_unmerged-Found :
      (i j : Itv) (x y : A.Z)
      → In x i
      → In y j
      → (Positive y ⊎ Negative y)
      → (l : List Itv) × (div_unmerged i j ≡ some l) × Found (A.div x y) l
  unfolding div_unmerged extremes Found
  div_unmerged-Found (a, b) (c, d) x y h l (inl above) =
      let (k, e, found) = by-Positive a b c d x y h l above in
      let (k', e') = extremes-some (a, b) (c, B.min d B.minus_one) in
      let (r, rest) = some_rest (B.is_negative_strict c) k' _ [] e' in
      let (r', all, here) =
        some_front (B.is_positive_strict d) k _ r (A.div x y) e
          (inl (strict_above d y above l.1, found)) in
      (r', rw rest all, here)
  div_unmerged-Found (a, b) (c, d) x y h l (inr below) =
      let (k, e, found) = by-Negative a b c d x y h l below in
      let (k', e') = extremes-some (a, b) (B.max c B.one, d) in
      let (r, rest, here) =
        some_front (B.is_negative_strict c) k _ [] (A.div x y) e
          (inl (strict_below c y below l.0, found)) in
      let (r', all, there) = some_front (B.is_positive_strict d) k' _ r (A.div x y) e' (inr here) in
      (r', rw rest all, there)

  signs : (v : ℤ) → v ≢ pos 0 → (pos 1 ≤ℤ v) ⊎ (v ≤ℤ negsuc 0)
  signs (pos zero) h = absurd (h refl)
  signs (pos (suc n)) h = inl (omega arith)
  signs (negsuc n) h = inr (omega arith)

  -- For integers that obey Zarith's laws, any two intervals and any members of them, the second not
  -- zero: div of the intervals raises no exception, and its result is not empty and contains the
  -- quotient of the members, which is rounded to zero.
  pub div-contains :
      (i j : Itv) (x y : A.Z)
      → contains x i ≡ true
      → contains y j ≡ true
      → L.value y ≢ pos 0
      → (k : WithBot Itv) × (div i j ≡ some k) × Member (A.div x y) k
  unfolding div join_list
  div-contains i j x y h l nonzero =
      let (r, e, found) =
        div_unmerged-Found i j x y ((contains-In x i).0 h) ((contains-In y j).0 l)
          (signs (L.value y) nonzero) in
      (join_list r, rw e refl, join_onto-Member (A.div x y) r bot (inr found))
