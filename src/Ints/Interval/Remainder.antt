-- ===== src/Ints/Interval/Remainder.antt =====
-- Remainders of intervals.
use mopsa_ocaml.Prelude.{
  ℕ, zero, suc, ℤ, pos, negsuc, ◌≡◌, ◌≢◌, ◌&&◌, refl, inl, inr, true, some, arith, ap, ◌∙◌,
  Bool-cases,
}
use mopsa_ocaml.Stub.Numbers.Divide.{quotient, remainder}
use mopsa_ocaml.Ints.Zarith.{Zarith, Laws}
use mopsa_ocaml.Ints.Bound.{Bound, minf, pinf, finite, gt, lt, equal}
use mopsa_ocaml.Ints.Bound as B
use mopsa_ocaml.Ints.Bound.Remainder.{
  size, remainder_size, remainder_same, remainder_small, remainder_nonneg, remainder_nonpos,
}
use mopsa_ocaml.Ints.Interval.{WithBot, nb, Itv, contains, ◌>>=◌}
use mopsa_ocaml.Ints.Interval.Forward.{abs, rem, rem_positive}
use mopsa_ocaml.Ints.Interval.Lattice.{In, contains-In, Member}
use mopsa_ocaml.Ints.Interval.Magnitude.{Magnitude, abs-In}
use mopsa_ocaml.Ints.Interval.Residue.{
  smaller, one_divisor, one_quotient, value-In, below_pred, above_pred, divisor_nonzero,
  one_remainder, nonneg, nonpos, zero-Le, Le-zero, exact,
}

module _ ⦃A : Zarith⦄ ⦃L : Laws A⦄ where
  Exact : Bound A.Z → Bound A.Z → Bound A.Z → A.Z → Type 0
  Exact a b c z =
      (k : WithBot Itv) × ((do p ← B.rem a c; q ← B.rem b c; some (nb (p, q))) ≡ some k)
      × Member z k

  Exact-ends :
      (a b c : Bound A.Z) (p q u x z : A.Z) (n : ℕ)
      → a ≡ finite p
      → b ≡ finite q
      → c ≡ finite u
      → L.value u ≡ pos (suc n)
      → In x (a, b)
      → L.value z ≡ remainder (L.value x) (pos (suc n))
      → quotient (L.value p) (L.value u) ≡ quotient (L.value q) (L.value u)
      → Exact a b c z
  unfolding Exact
  Exact-ends a b c p q u x z n ea eb ec e h ez quotients =
      let found = exact p q x u z n e (rw (ea, eb) at h) ez quotients in
      (
        nb (finite (A.rem p u), finite (A.rem q u)),
        rw (ec, ea, eb, (one_remainder p u n e).0, (one_remainder q u n e).0) refl,
        (contains-In z (finite (A.rem p u), finite (A.rem q u))).1 found,
      )

  Exact-divisor :
      (a b c : Bound A.Z) (u x z : A.Z) (n : ℕ)
      → c ≡ finite u
      → L.value u ≡ pos (suc n)
      → In x (a, b)
      → L.value z ≡ remainder (L.value x) (pos (suc n))
      → equal (B.div a c) (B.div b c) ≡ true
      → Exact a b c z
  Exact-divisor a b c u x z n ec e h ez agree =
      let (p, q, ea, eb, quotients) =
        one_quotient a b x u (rw e (omega arith)) h (rw ec at agree) in
      Exact-ends a b c p q u x z n ea eb ec e h ez quotients

  Exact-Member :
      (a b c d : Bound A.Z) (x w z : A.Z) (n : ℕ)
      → In x (a, b)
      → In w (c, d)
      → L.value w ≡ pos (suc n)
      → L.value z ≡ remainder (L.value x) (pos (suc n))
      → (equal c d && equal (B.div a c) (B.div b c)) ≡ true
      → Exact a b c z
  Exact-Member a b c d x w z n h l e ez same =
      let (u, ec, eu) = one_divisor c d w l (ground arith) in
      Exact-divisor a b c u x z n ec (eu ∙ e) h ez (ground arith)

  rem_positive-Member :
      (a b c d : Bound A.Z) (x w z : A.Z) (n : ℕ)
      → In x (a, b)
      → In w (c, d)
      → L.value w ≡ pos (suc n)
      → L.value z ≡ remainder (L.value x) (pos (suc n))
      → (k : WithBot Itv) × (rem_positive (a, b) (c, d) ≡ some k) × Member z k
  unfolding rem_positive Exact
  rem_positive-Member a b c d x w z n h l e ez =
      let nonzero = divisor_nonzero d w n l.1 e in
      let (above, below) = remainder_small (L.value x) n in
      let high = below_pred d w z n l.1 e (rw ez above) in
      let low = above_pred d w z n l.1 e (rw ez below) in
      elim (Bool-cases (gt a (B.neg c) && lt b c)) [
        | inl inside ↦
            let small = smaller a b c x w n h l.0 e inside in
            (
              nb (a, b),
              rw (nonzero, inside) refl,
              (contains-In z (a, b)).1
                  (value-In x z a b (ez ∙ remainder_same (L.value x) n small) h),
            )
        | inr out ↦ elim (Bool-cases (equal c d && equal (B.div a c) (B.div b c))) [
          | inl same ↦
              let (k, returned, found) = Exact-Member a b c d x w z n h l e ez same in
              (k, rw (nonzero, out, same) returned, found)
          | inr differ ↦ elim (Bool-cases (B.is_positive a)) [
            | inl up ↦
                let sign = remainder_nonneg (L.value x) n (nonneg a x up h.0) in
                (
                  nb (B.zero, B.pred d),
                  rw (nonzero, out, differ, up) refl,
                  (contains-In z (B.zero, B.pred d)).1 (zero-Le z (rw ez sign), high),
                )
            | inr unbounded ↦ elim (Bool-cases (B.is_negative b)) [
              | inl down ↦
                  let sign = remainder_nonpos (L.value x) n (nonpos b x down h.1) in
                  (
                    nb (B.neg (B.pred d), B.zero),
                    rw (nonzero, out, differ, unbounded, down) refl,
                    (contains-In z (B.neg (B.pred d), B.zero)).1 (low, Le-zero z (rw ez sign)),
                  )
              | inr wide ↦ (
                nb (B.neg (B.pred d), B.pred d),
                rw (nonzero, out, differ, unbounded, wide) refl,
                (contains-In z (B.neg (B.pred d), B.pred d)).1 (low, high),
              )
            ]
          ]
        ]
      ]

  size_suc : (v : ℤ) → v ≢ pos 0 → (n : ℕ) × (size v ≡ suc n)
  size_suc (pos zero) h = absurd (h refl)
  size_suc (pos (suc n)) h = (n, refl)
  size_suc (negsuc n) h = (n, refl)

  -- For integers that obey Zarith's laws, any two intervals and any members of them, the second not
  -- zero: rem of the intervals raises no exception, and its result is not empty and contains the
  -- remainder of the members, which has the sign of the first.
  pub rem-contains :
      (i j : Itv) (x y : A.Z)
      → contains x i ≡ true
      → contains y j ≡ true
      → L.value y ≢ pos 0
      → (k : WithBot Itv) × (rem i j ≡ some k) × Member (A.rem x y) k
  unfolding rem Magnitude
  rem-contains (a, b) (c, d) x y h l nonzero =
      let (w, magnitude, found) = abs-In c d y ((contains-In y (c, d)).0 l) in
      let (n, e) = size_suc (L.value y) nonzero in
      rem_positive-Member a b (abs (c, d)).0 (abs (c, d)).1 x w (A.rem x y) n
        ((contains-In x (a, b)).0 h) found (magnitude ∙ ap pos e)
        (L.rem_law x y nonzero
          ∙ remainder_size (L.value x) (L.value y)
          ∙ ap (λ (m : ℕ). remainder (L.value x) (pos m)) e)
