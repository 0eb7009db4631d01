-- ===== src/Ints/Bound/Product.antt =====
-- Products of bounds.
use Prim.Native.Nat.{Ordering}
use mopsa_ocaml.Prelude.{pos, ◌≡◌, refl, inl, inr, arith, ap, ◌∙◌}
use mopsa_ocaml.Prelude.Signed.{pos_part, neg_part, ◌≤ℤ◌, *ℤ_mono, *ℤ_anti, *ℤ_comm}
use mopsa_ocaml.Prelude.Floor.{times_zero}
use mopsa_ocaml.Ints.Zarith.{Zarith, Laws}
use mopsa_ocaml.Ints.Bound.{Bound, minf, pinf, finite, infinite, sign, opposite}
use mopsa_ocaml.Ints.Bound as B
use mopsa_ocaml.Ints.Bound.Order.{Le, Le_refl, Le_pinf, Le_trans, Between}
use mopsa_ocaml.Ints.Bound.Signs.{
  times_gt, times_lt, times_comm, Signed, Signed-value, infinite_mono, opposite_anti, sign_mono,
}

module _ ⦃A : Zarith⦄ ⦃L : Laws A⦄ where
  mul_pinf : (a : Bound A.Z) → B.mul a pinf ≡ infinite (sign a)
  unfolding B.mul
  mul_pinf minf = refl
  mul_pinf pinf = refl
  mul_pinf (finite x) = ap infinite (times_gt (A.sign x))

  mul_minf : (a : Bound A.Z) → B.mul a minf ≡ infinite (opposite (sign a))
  unfolding B.mul
  mul_minf minf = refl
  mul_minf pinf = refl
  mul_minf (finite x) = ap infinite (times_lt (A.sign x))

  -- Products with an integer, by its sign.
  product_mono :
      (p q v : A.Z)
      → L.value p ≤ℤ L.value q
      → neg_part (L.value v) ≡ 0
      → L.value (A.mul p v) ≤ℤ L.value (A.mul q v)
  product_mono p q v h e =
      rw (L.mul_law p v, L.mul_law q v) (*ℤ_mono (L.value p) (L.value q) (L.value v) h e)

  product_anti :
      (p q v : A.Z)
      → L.value p ≤ℤ L.value q
      → pos_part (L.value v) ≡ 0
      → L.value (A.mul q v) ≤ℤ L.value (A.mul p v)
  product_anti p q v h e =
      rw (L.mul_law p v, L.mul_law q v) (*ℤ_anti (L.value p) (L.value q) (L.value v) h e)

  scale_pos :
      (a b : Bound A.Z) (v : A.Z)
      → A.sign v ≡ Ordering.gt
      → neg_part (L.value v) ≡ 0
      → Le a b
      → Le (B.mul a (finite v)) (B.mul b (finite v))
  unfolding B.mul
  scale_pos minf b v s e h = rw s tt
  scale_pos (finite p) minf v s e h = absurd h
  scale_pos (finite p) (finite q) v s e h = product_mono p q v h e
  scale_pos (finite p) pinf v s e h = rw s tt
  scale_pos pinf minf v s e h = absurd h
  scale_pos pinf (finite q) v s e h = absurd h
  scale_pos pinf pinf v s e h = rw s tt

  scale_neg :
      (a b : Bound A.Z) (v : A.Z)
      → A.sign v ≡ Ordering.lt
      → pos_part (L.value v) ≡ 0
      → Le a b
      → Le (B.mul b (finite v)) (B.mul a (finite v))
  unfolding B.mul
  scale_neg minf b v s e h = rw s (Le_pinf (B.mul b (finite v)))
  scale_neg (finite p) minf v s e h = absurd h
  scale_neg (finite p) (finite q) v s e h = product_anti p q v h e
  scale_neg (finite p) pinf v s e h = rw s tt
  scale_neg pinf minf v s e h = absurd h
  scale_neg pinf (finite q) v s e h = absurd h
  scale_neg pinf pinf v s e h = rw s tt

  -- Zero and anything, infinities too, make zero.
  scale_zero :
      (a : Bound A.Z) (v : A.Z)
      → A.sign v ≡ Ordering.eq
      → L.value v ≡ pos 0
      → (z : A.Z) × (B.mul a (finite v) ≡ finite z) × (L.value z ≡ pos 0)
  unfolding B.mul
  scale_zero minf v s e = (A.zero, rw s refl, L.value_zero)
  scale_zero (finite p) v s e = (A.mul p v, refl, L.mul_law p v ∙ rw e (times_zero (L.value p)))
  scale_zero pinf v s e = (A.zero, rw s refl, L.value_zero)

  scale-Between :
      (a b x : Bound A.Z) (v : A.Z)
      → Le a x
      → Le x b
      → Signed v
      → Between (B.mul a (finite v)) (B.mul b (finite v)) (B.mul x (finite v))
  unfolding Signed
  scale-Between a b x v h k (inl (s, e)) = inl (scale_pos a x v s e h, scale_pos x b v s e k)
  scale-Between a b x v h k (inr (inr (s, e))) = inr (scale_neg x b v s e k, scale_neg a x v s e h)
  scale-Between a b x v h k (inr (inl (s, e))) =
      let (za, ea, va) = scale_zero a v s e in
      let (zb, eb, vb) = scale_zero b v s e in
      let (zx, ex, vx) = scale_zero x v s e in
      inl (rw (ea, eb, ex) (zeros za zx va vx, zeros zx zb vx vb))
    where
      zeros : (z w : A.Z) → L.value z ≡ pos 0 → L.value w ≡ pos 0 → L.value z ≤ℤ L.value w
      zeros z w h k = rw (h, k) (omega arith)

  -- A product by any bound keeps or turns round the order.
  pub mul-Between :
      (a b x y : Bound A.Z) → Le a x → Le x b → Between (B.mul a y) (B.mul b y) (B.mul x y)
  mul-Between a b x (finite v) h k = scale-Between a b x v h k (Signed-value v)
  mul-Between a b x pinf h k = inl (
      rw (mul_pinf a, mul_pinf b, mul_pinf x)
        (
          infinite_mono (sign a) (sign x) (sign_mono a x h),
          infinite_mono (sign x) (sign b) (sign_mono x b k),
        ))
  mul-Between a b x minf h k = inr (
      rw (mul_minf a, mul_minf b, mul_minf x)
        (
          infinite_mono (opposite (sign b)) (opposite (sign x))
              (opposite_anti (sign x) (sign b) (sign_mono x b k)),
          infinite_mono (opposite (sign x)) (opposite (sign a))
              (opposite_anti (sign a) (sign x) (sign_mono a x h)),
        ))

  infinite_refl : (s t : Ordering) → s ≡ t → Le (infinite s) (infinite t)
  infinite_refl s t e = rw e (Le_refl (infinite t))

  swap : (x y : Bound A.Z) → Le (B.mul x y) (B.mul y x)
  unfolding B.mul
  swap (finite p) (finite q) =
      rw (L.mul_law p q, L.mul_law q p, *ℤ_comm (L.value p) (L.value q)) (omega arith)
  swap (finite p) minf = infinite_refl _ _ (times_comm (A.sign p) Ordering.lt)
  swap (finite p) pinf = infinite_refl _ _ (times_comm (A.sign p) Ordering.gt)
  swap minf y = rw (mul_minf y) (Le_refl (infinite (opposite (sign y))))
  swap pinf y = rw (mul_pinf y) (Le_refl (infinite (sign y)))

  pub mul-Between_right :
      (a x y z : Bound A.Z) → Le y x → Le x z → Between (B.mul a y) (B.mul a z) (B.mul a x)
  mul-Between_right a x y z h k = turn (mul-Between y z x a h k)
    where
      through : (p q : Bound A.Z) → Le (B.mul p a) (B.mul q a) → Le (B.mul a p) (B.mul a q)
      through p q le =
          Le_trans (B.mul a p) (B.mul p a) (B.mul a q) (swap a p)
            (Le_trans (B.mul p a) (B.mul q a) (B.mul a q) le (swap q a))

      turn :
          Between (B.mul y a) (B.mul z a) (B.mul x a) → Between (B.mul a y) (B.mul a z) (B.mul a x)
      turn (inl (l, u)) = inl (through y x l, through x z u)
      turn (inr (l, u)) = inr (through z x l, through x y u)
