-- ===== src/Ints/Bound/Division.antt =====
-- Quotients of bounds.
use mopsa_ocaml.Prelude.{pos, negsuc, ◌≡◌, ◌≢◌, refl, inl, inr, arith, false}
use mopsa_ocaml.Prelude.Signed.{◌≤ℤ◌}
use mopsa_ocaml.Stub.Numbers.Divide.{quotient}
use mopsa_ocaml.Ints.Zarith.{Zarith, Laws}
use mopsa_ocaml.Ints.Bound.{Bound, minf, pinf, finite, level, infinite}
use mopsa_ocaml.Ints.Bound as B
use mopsa_ocaml.Ints.Bound.Order.{Le, Le_refl, Le_pinf, Between}
use mopsa_ocaml.Ints.Bound.Quotient.{
  quotient_mono, quotient_anti, divisor_above, divisor_below, spread_ordered, nearest_zero, Nearer,
}

module _ ⦃A : Zarith⦄ ⦃L : Laws A⦄ where
  abbrev pub Positive : A.Z → Type 0
  Positive v = pos 1 ≤ℤ L.value v

  abbrev pub Negative : A.Z → Type 0
  Negative v = L.value v ≤ℤ negsuc 0

  pub apart : (v : A.Z) → L.value v ≢ pos 0 → level (A.compare v A.zero) ≡ false
  apart v h = rw (L.compare_law v A.zero, L.value_zero) (ground arith)

  pub divided :
      (x v : A.Z)
      → L.value v ≢ pos 0
      → (B.div (finite x) (finite v) ≡ finite (A.div x v))
        × (L.value (A.div x v) ≡ quotient (L.value x) (L.value v))
  unfolding B.div
  divided x v h = (rw (apart v h) refl, L.div_law x v h)

  pub nonzero_above : (v : A.Z) → Positive v → L.value v ≢ pos 0
  nonzero_above v h e = absurd (omega (arith, rw e at h))

  pub nonzero_below : (v : A.Z) → Negative v → L.value v ≢ pos 0
  nonzero_below v h e = absurd (omega (arith, rw e at h))

  pub pinf_above : (v : A.Z) → Positive v → B.div pinf (finite v) ≡ pinf
  unfolding B.div
  pinf_above v h = ground (arith, L.sign_law v)

  pinf_below : (v : A.Z) → Negative v → B.div pinf (finite v) ≡ minf
  unfolding B.div
  pinf_below v h = ground (arith, L.sign_law v)

  pub minf_above : (v : A.Z) → Positive v → B.div minf (finite v) ≡ minf
  unfolding B.div
  minf_above v h = ground (arith, L.sign_law v)

  minf_below : (v : A.Z) → Negative v → B.div minf (finite v) ≡ pinf
  unfolding B.div
  minf_below v h = ground (arith, L.sign_law v)

  divided_le :
      (x y u v : A.Z)
      → L.value u ≢ pos 0
      → L.value v ≢ pos 0
      → quotient (L.value x) (L.value u) ≤ℤ quotient (L.value y) (L.value v)
      → Le (B.div (finite x) (finite u)) (B.div (finite y) (finite v))
  divided_le x y u v h k le =
      let (ex, vx) = divided x u h in let (ey, vy) = divided y v k in rw (ex, ey) (rw (vx, vy) le)

  div_mono :
      (p q : Bound A.Z) (v : A.Z)
      → Positive v
      → Le p q
      → Le (B.div p (finite v)) (B.div q (finite v))
  div_mono minf q v h k = rw (minf_above v h) tt
  div_mono (finite x) minf v h k = absurd k
  div_mono (finite x) (finite y) v h k =
      divided_le x y v v (nonzero_above v h) (nonzero_above v h)
        (quotient_mono (L.value x) (L.value y) (L.value v) k h)
  div_mono (finite x) pinf v h k = rw (pinf_above v h) (Le_pinf (B.div (finite x) (finite v)))
  div_mono pinf minf v h k = absurd k
  div_mono pinf (finite y) v h k = absurd k
  div_mono pinf pinf v h k = Le_refl (B.div pinf (finite v))

  div_anti :
      (p q : Bound A.Z) (v : A.Z)
      → Negative v
      → Le p q
      → Le (B.div q (finite v)) (B.div p (finite v))
  div_anti minf q v h k = rw (minf_below v h) (Le_pinf (B.div q (finite v)))
  div_anti (finite x) minf v h k = absurd k
  div_anti (finite x) (finite y) v h k =
      divided_le y x v v (nonzero_below v h) (nonzero_below v h)
        (quotient_anti (L.value x) (L.value y) (L.value v) k h)
  div_anti (finite x) pinf v h k = rw (pinf_below v h) tt
  div_anti pinf minf v h k = absurd k
  div_anti pinf (finite y) v h k = absurd k
  div_anti pinf pinf v h k = Le_refl (B.div pinf (finite v))

  -- The dividend.
  pub dividend_above :
      (a b x : Bound A.Z) (v : A.Z)
      → Positive v
      → Le a x
      → Le x b
      → Between (B.div a (finite v)) (B.div b (finite v)) (B.div x (finite v))
  dividend_above a b x v h k l = inl (div_mono a x v h k, div_mono x b v h l)

  pub dividend_below :
      (a b x : Bound A.Z) (v : A.Z)
      → Negative v
      → Le a x
      → Le x b
      → Between (B.div a (finite v)) (B.div b (finite v)) (B.div x (finite v))
  dividend_below a b x v h k l = inr (div_anti x b v h l, div_anti a x v h k)

  -- The divisor, for an integer as the dividend: `d` is further from zero than v, and v than u.
  spread :
      (x u v z : A.Z) (d : Bound A.Z)
      → L.value u ≢ pos 0
      → L.value v ≢ pos 0
      → B.div (finite x) d ≡ finite z
      → Nearer (quotient (L.value x) (L.value v)) (quotient (L.value x) (L.value u))
      → Nearer (L.value z) (quotient (L.value x) (L.value v))
      → Between (B.div (finite x) (finite u)) (B.div (finite x) d) (B.div (finite x) (finite v))
  spread x u v z d h k e near far =
      let (eu, vu) = divided x u h in
      let (ev, vv) = divided x v k in rw (eu, ev, e) (rw (vu, vv) (spread_ordered _ _ _ near far))

  -- An infinite divisor gives zero.
  spread_zero :
      (x u v : A.Z) (d : Bound A.Z)
      → L.value u ≢ pos 0
      → L.value v ≢ pos 0
      → B.div (finite x) d ≡ B.zero
      → Nearer (quotient (L.value x) (L.value v)) (quotient (L.value x) (L.value u))
      → Between (B.div (finite x) (finite u)) (B.div (finite x) d) (B.div (finite x) (finite v))
  unfolding B.zero
  spread_zero x u v d h k e near =
      spread x u v A.zero d h k e near (rw L.value_zero (nearest_zero _ _ near))

  pub divisor_above-Between :
      (a c d : Bound A.Z) (v : A.Z)
      → Le B.one c
      → Le c (finite v)
      → Le (finite v) d
      → Between (B.div a c) (B.div a d) (B.div a (finite v))
  unfolding B.one
  divisor_above-Between a minf d v h k l = absurd h
  divisor_above-Between a pinf d v h k l = absurd k
  divisor_above-Between a (finite u) minf v h k l = absurd l
  divisor_above-Between minf (finite u) pinf v h k l =
      let low : Positive u = rw L.value_one at h in
      rw (minf_above u low, minf_above v (omega (arith, low))) (inl (tt, tt))
  divisor_above-Between pinf (finite u) pinf v h k l =
      let low : Positive u = rw L.value_one at h in
      rw (pinf_above u low, pinf_above v (omega (arith, low))) (inr (Le_pinf (B.div pinf pinf), tt))
  divisor_above-Between (finite x) (finite u) pinf v h k l =
      let low : Positive u = rw L.value_one at h in
      let middle : Positive v = omega (arith, low) in
      spread_zero x u v pinf (nonzero_above u low) (nonzero_above v middle) (unfold B.div in refl)
        (divisor_above (L.value x) (L.value u) (L.value v) low k)
  divisor_above-Between minf (finite u) (finite w) v h k l =
      let low : Positive u = rw L.value_one at h in
      rw (minf_above u low, minf_above v (omega (arith, low)), minf_above w (omega (arith, low)))
        (inl (tt, tt))
  divisor_above-Between pinf (finite u) (finite w) v h k l =
      let low : Positive u = rw L.value_one at h in
      rw (pinf_above u low, pinf_above v (omega (arith, low)), pinf_above w (omega (arith, low)))
        (inl (tt, tt))
  divisor_above-Between (finite x) (finite u) (finite w) v h k l =
      let low : Positive u = rw L.value_one at h in
      let middle : Positive v = omega (arith, low) in
      let (ew, vw) = divided x w (nonzero_above w (omega (arith, middle))) in
      spread x u v (A.div x w) (finite w) (nonzero_above u low) (nonzero_above v middle) ew
        (divisor_above (L.value x) (L.value u) (L.value v) low k)
        (rw vw (divisor_above (L.value x) (L.value v) (L.value w) middle l))

  turned : (l r v : Bound A.Z) → Between l r v → Between r l v
  turned l r v (inl h) = inr h
  turned l r v (inr h) = inl h

  last-Negative : (w : A.Z) → Le (finite w) B.minus_one → Negative w
  unfolding B.minus_one
  last-Negative w h = rw L.value_minus_one at h

  pub divisor_below-Between :
      (a c d : Bound A.Z) (v : A.Z)
      → Le d B.minus_one
      → Le (finite v) d
      → Le c (finite v)
      → Between (B.div a c) (B.div a d) (B.div a (finite v))
  unfolding B.minus_one
  divisor_below-Between a c minf v h k l = absurd k
  divisor_below-Between a c pinf v h k l = absurd h
  divisor_below-Between a pinf (finite w) v h k l = absurd l
  divisor_below-Between minf minf (finite w) v h k l =
      let low = last-Negative w h in
      rw (minf_below w low, minf_below v (omega (arith, low))) (inl (Le_pinf (B.div minf minf), tt))
  divisor_below-Between pinf minf (finite w) v h k l =
      let low = last-Negative w h in
      rw (pinf_below w low, pinf_below v (omega (arith, low))) (inr (tt, tt))
  divisor_below-Between (finite x) minf (finite w) v h k l =
      let low = last-Negative w h in
      let middle : Negative v = omega (arith, low) in
      turned (B.div (finite x) (finite w)) (B.div (finite x) minf) (B.div (finite x) (finite v)) (
        spread_zero x w v minf (nonzero_below w low) (nonzero_below v middle) (unfold B.div in refl)
          (divisor_below (L.value x) (L.value w) (L.value v) low k))
  divisor_below-Between minf (finite u) (finite w) v h k l =
      let low = last-Negative w h in
      rw (minf_below w low, minf_below v (omega (arith, low)), minf_below u (omega (arith, low)))
        (inl (tt, tt))
  divisor_below-Between pinf (finite u) (finite w) v h k l =
      let low = last-Negative w h in
      rw (pinf_below w low, pinf_below v (omega (arith, low)), pinf_below u (omega (arith, low)))
        (inl (tt, tt))
  divisor_below-Between (finite x) (finite u) (finite w) v h k l =
      let low = last-Negative w h in
      let middle : Negative v = omega (arith, low) in
      let (eu, vu) = divided x u (nonzero_below u (omega (arith, middle))) in
      turned (B.div (finite x) (finite w)) (B.div (finite x) (finite u))
        (B.div (finite x) (finite v))
        (spread x w v (A.div x u) (finite u) (nonzero_below w low) (nonzero_below v middle) eu
          (divisor_below (L.value x) (L.value w) (L.value v) low k)
          (rw vu (divisor_below (L.value x) (L.value v) (L.value u) middle l)))
