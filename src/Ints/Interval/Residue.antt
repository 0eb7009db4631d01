-- ===== src/Ints/Interval/Residue.antt =====
-- The cases of a remainder of an interval.
use mopsa_ocaml.Prelude.{
  ℕ, zero, suc, ℤ, pos, negsuc, ◌<◌, ◌≡◌, ◌≢◌, ◌&&◌, refl, true, false, some, arith, ap, ◌∙◌, sym,
}
use mopsa_ocaml.Prelude.Signed.{pos_part, neg_part, ◌≤ℤ◌, one_part, eq_of_parts, ◌-ℤ◌, -ℤ_parts}
use mopsa_ocaml.Stub.Numbers.Divide.{quotient, remainder, minus}
use mopsa_ocaml.Ints.Bound.Remainder.{minus_parts}
use mopsa_ocaml.Ints.Zarith.{Zarith, Laws}
use mopsa_ocaml.Ints.Bound.{Bound, minf, pinf, finite, not_above, sign, level, gt, lt, equal}
use mopsa_ocaml.Ints.Bound as B
use mopsa_ocaml.Ints.Bound.Order.{Le, Le_pinf, Le_trans, leq-Le, gt-leq, lt-leq}
use mopsa_ocaml.Ints.Bound.Division.{
  Positive, apart, divided, nonzero_above, pinf_above, minf_above,
}
use mopsa_ocaml.Ints.Bound.Quotient.{quotient_mono}
use mopsa_ocaml.Ints.Bound.Remainder.{size, remainder_mono}
use mopsa_ocaml.Ints.Interval.Lattice.{In}

outside : (x u : ℤ) (n : ℕ) → (x ≤ℤ minus u → ⊥) → (u ≤ℤ x → ⊥) → u ≤ℤ pos (suc n) → size x < suc n
outside (pos a) (pos c) n h k l = ground arith
outside (pos a) (negsuc c) n h k l = absurd (k (omega arith))
outside (negsuc a) (pos zero) n h k l = absurd (h (omega arith))
outside (negsuc a) (pos (suc c)) n h k l = ground arith
outside (negsuc a) (negsuc c) n h k l = ground arith

module _ ⦃A : Zarith⦄ ⦃L : Laws A⦄ where
  gt-Le : (a b : Bound A.Z) → gt a b ≡ true → Le a b → ⊥
  gt-Le a b h le = absurd (ground (arith, gt-leq a b, (leq-Le a b).1 le))

  lt-Le : (a b : Bound A.Z) → lt b a ≡ true → Le a b → ⊥
  lt-Le a b h le = absurd (ground (arith, lt-leq b a, (leq-Le a b).1 le))

  -- The first case: all of the interval is smaller than the divisors.
  pub smaller :
      (a b c : Bound A.Z) (x w : A.Z) (n : ℕ)
      → In x (a, b)
      → Le c (finite w)
      → L.value w ≡ pos (suc n)
      → (gt a (B.neg c) && lt b c) ≡ true
      → size (L.value x) < suc n
  unfolding B.neg
  smaller a b minf x w n (h, k) l e t = absurd (gt-Le a pinf (ground arith) (Le_pinf a))
  smaller a b pinf x w n (h, k) l e t = absurd l
  smaller a b (finite u) x w n (h, k) l e t =
      outside (L.value x) (L.value u) n
        (λ low.
          gt-Le a (finite (A.neg u)) (ground arith)
            (Le_trans a (finite x) (finite (A.neg u)) h (rw (L.neg_law u) low)))
        (λ high. lt-Le (finite u) b (ground arith) (Le_trans (finite u) (finite x) b high k))
        (rw e at l)

  pub level-value : (p q : A.Z) → level (A.compare p q) ≡ true → L.value p ≡ L.value q
  level-value p q h = eq_of_parts (L.value p) (L.value q) (ground (arith, L.compare_law p q))

  -- The second case: there is one divisor, and all quotients agree.
  pub one_divisor :
      (c d : Bound A.Z) (w : A.Z)
      → In w (c, d)
      → equal c d ≡ true
      → (u : A.Z) × (c ≡ finite u) × (L.value u ≡ L.value w)
  unfolding equal
  one_divisor minf minf w (h, k) e = absurd k
  one_divisor minf (finite v) w (h, k) e = absurd (cc)
  one_divisor minf pinf w (h, k) e = absurd (cc)
  one_divisor (finite u) minf w (h, k) e = absurd k
  one_divisor (finite u) (finite v) w (h, k) e = (
    u,
    refl,
    eq_of_parts (L.value u) (L.value w)
        (omega (arith, ap pos_part (level-value u v e), ap neg_part (level-value u v e))),
  )
  one_divisor (finite u) pinf w (h, k) e = absurd (cc)
  one_divisor pinf d w (h, k) e = absurd h

  pub one_quotient :
      (a b : Bound A.Z) (x u : A.Z)
      → Positive u
      → In x (a, b)
      → equal (B.div a (finite u)) (B.div b (finite u)) ≡ true
      → (p q : A.Z) × (a ≡ finite p)
        × (b ≡ finite q)
        × (quotient (L.value p) (L.value u) ≡ quotient (L.value q) (L.value u))
  unfolding equal
  one_quotient minf minf x u h (l, k) e = absurd k
  one_quotient minf (finite q) x u h (l, k) e =
      let no = rw (minf_above u h, (divided q u (nonzero_above u h)).0) at e in absurd (cc)
  one_quotient minf pinf x u h (l, k) e =
      let no = rw (minf_above u h, pinf_above u h) at e in absurd (cc)
  one_quotient (finite p) minf x u h (l, k) e = absurd k
  one_quotient (finite p) pinf x u h (l, k) e =
      let no = rw (pinf_above u h, (divided p u (nonzero_above u h)).0) at e in absurd (cc)
  one_quotient (finite p) (finite q) x u h (l, k) e =
      let (ep, vp) = divided p u (nonzero_above u h) in
      let (eq, vq) = divided q u (nonzero_above u h) in
      (p, q, refl, refl, sym vp ∙ level-value (A.div p u) (A.div q u) (rw (ep, eq) at e) ∙ vq)
  one_quotient pinf b x u h (l, k) e = absurd l

  pub value-In : (x z : A.Z) (a b : Bound A.Z) → L.value z ≡ L.value x → In x (a, b) → In z (a, b)
  value-In x z a b e (h, k) = (
    Le_trans a (finite x) (finite z) h (rw e (omega arith)),
    Le_trans (finite z) (finite x) b (rw e (omega arith)) k,
  )

  -- What is smaller than a divisor, in bounds.
  pub below_pred :
      (d : Bound A.Z) (w z : A.Z) (n : ℕ)
      → Le (finite w) d
      → L.value w ≡ pos (suc n)
      → pos_part (L.value z) < suc n
      → Le (finite z) (B.pred d)
  unfolding B.pred
  below_pred minf w z n h e l = absurd h
  below_pred pinf w z n h e l = tt
  below_pred (finite v) w z n h e l =
      rw (L.pred_law v)
        (omega (arith, rw e at h, -ℤ_parts (L.value v) (pos 1), one_part (L.value z)))

  pub above_pred :
      (d : Bound A.Z) (w z : A.Z) (n : ℕ)
      → Le (finite w) d
      → L.value w ≡ pos (suc n)
      → neg_part (L.value z) < suc n
      → Le (B.neg (B.pred d)) (finite z)
  unfolding B.pred B.neg
  above_pred minf w z n h e l = absurd h
  above_pred pinf w z n h e l = tt
  above_pred (finite v) w z n h e l =
      rw (L.neg_law (A.pred v), L.pred_law v)
        (omega (
          arith,
          rw e at h,
          -ℤ_parts (L.value v) (pos 1),
          minus_parts (L.value v -ℤ pos 1),
          one_part (L.value z),
        ))

  pub divisor_nonzero :
      (d : Bound A.Z) (w : A.Z) (n : ℕ)
      → Le (finite w) d
      → L.value w ≡ pos (suc n)
      → B.is_zero d ≡ false
  unfolding B.is_zero
  divisor_nonzero minf w n h e = absurd h
  divisor_nonzero pinf w n h e = refl
  divisor_nonzero (finite v) w n h e =
      let low : pos (suc n) ≤ℤ L.value v = rw e at h in ground (arith, L.sign_law v)

  pub one_remainder :
      (p u : A.Z) (n : ℕ)
      → L.value u ≡ pos (suc n)
      → (B.rem (finite p) (finite u) ≡ some (finite (A.rem p u)))
        × (L.value (A.rem p u) ≡ remainder (L.value p) (pos (suc n)))
  unfolding B.rem
  one_remainder p u n e =
      let nonzero : L.value u ≢ pos 0 = λ z. absurd (omega (arith, ap pos_part (sym e ∙ z))) in
      (rw (apart u nonzero) refl, L.rem_law p u nonzero ∙ ap (λ (v : ℤ). remainder (L.value p) v) e)

  pub nonneg :
      (a : Bound A.Z) (x : A.Z) → B.is_positive a ≡ true → Le a (finite x) → pos 0 ≤ℤ L.value x
  unfolding B.is_positive
  nonneg minf x h k = absurd (cc)
  nonneg (finite p) x h k = ground (arith, L.sign_law p)
  nonneg pinf x h k = absurd k

  pub nonpos :
      (b : Bound A.Z) (x : A.Z) → B.is_negative b ≡ true → Le (finite x) b → L.value x ≤ℤ pos 0
  unfolding B.is_negative
  nonpos minf x h k = absurd k
  nonpos (finite p) x h k = ground (arith, L.sign_law p)
  nonpos pinf x h k = absurd (cc)

  pub zero-Le : (z : A.Z) → neg_part (L.value z) ≡ 0 → Le B.zero (finite z)
  unfolding B.zero
  zero-Le z h = rw L.value_zero (omega arith)

  pub Le-zero : (z : A.Z) → pos_part (L.value z) ≡ 0 → Le (finite z) B.zero
  unfolding B.zero
  Le-zero z h = rw L.value_zero (omega arith)

  pub exact :
      (p q x u z : A.Z) (n : ℕ)
      → L.value u ≡ pos (suc n)
      → In x (finite p, finite q)
      → L.value z ≡ remainder (L.value x) (pos (suc n))
      → quotient (L.value p) (L.value u) ≡ quotient (L.value q) (L.value u)
      → In z (finite (A.rem p u), finite (A.rem q u))
  exact p q x u z n e (h, k) ez same =
      let plain = rw e at same in
      let low = quotient_mono (L.value p) (L.value x) (pos (suc n)) h (omega arith) in
      let high = quotient_mono (L.value x) (L.value q) (pos (suc n)) k (omega arith) in
      let parts = ap pos_part plain in
      let parts' = ap neg_part plain in
      let first : quotient (L.value p) (pos (suc n)) ≡ quotient (L.value x) (pos (suc n)) =
        eq_of_parts _ _ (omega arith) in
      let second : quotient (L.value x) (pos (suc n)) ≡ quotient (L.value q) (pos (suc n)) =
        eq_of_parts _ _ (omega arith) in
      (
        rw ((one_remainder p u n e).1, ez) (remainder_mono (L.value p) (L.value x) n first h),
        rw ((one_remainder q u n e).1, ez) (remainder_mono (L.value x) (L.value q) n second k),
      )
