-- ===== src/Ints/Bound/Signs.antt =====
-- The signs of the bounds, and their order.
use Prim.Native.Nat.{Ordering}
use mopsa_ocaml.Prelude.{pos, ◌≡◌, ◌⊎◌, refl, sym, arith}
use mopsa_ocaml.Prelude.Signed.{pos_part, neg_part}
use mopsa_ocaml.Ints.Zarith.{Zarith, Laws}
use mopsa_ocaml.Ints.Bound.{Bound, minf, pinf, finite, infinite, sign, times, opposite}
use mopsa_ocaml.Ints.Bound.Order.{Le}

pub times_gt : (s : Ordering) → times s Ordering.gt ≡ s
times_gt Ordering.lt = refl
times_gt Ordering.eq = refl
times_gt Ordering.gt = refl

pub times_lt : (s : Ordering) → times s Ordering.lt ≡ opposite s
times_lt Ordering.lt = refl
times_lt Ordering.eq = refl
times_lt Ordering.gt = refl

pub times_comm : (s t : Ordering) → times s t ≡ times t s
times_comm Ordering.lt t = sym (times_lt t)
times_comm Ordering.gt t = sym (times_gt t)
times_comm Ordering.eq Ordering.lt = refl
times_comm Ordering.eq Ordering.eq = refl
times_comm Ordering.eq Ordering.gt = refl

module _ ⦃A : Zarith⦄ ⦃L : Laws A⦄ where
  -- The sign of an integer, with what it says of its value.
  unfoldable pub Signed : A.Z → Type 0
  Signed v =
      ((A.sign v ≡ Ordering.gt) × (neg_part (L.value v) ≡ 0))
      ⊎ ((A.sign v ≡ Ordering.eq) × (L.value v ≡ pos 0))
      ⊎ ((A.sign v ≡ Ordering.lt) × (pos_part (L.value v) ≡ 0))

  pub Signed-value : (v : A.Z) → Signed v
  unfolding Signed
  Signed-value v = ground (arith, L.sign_law v)

  pub SignLe : Ordering → Ordering → Type 0
  SignLe Ordering.lt t = Unit
  SignLe Ordering.eq Ordering.lt = ⊥
  SignLe Ordering.eq Ordering.eq = Unit
  SignLe Ordering.eq Ordering.gt = Unit
  SignLe Ordering.gt Ordering.lt = ⊥
  SignLe Ordering.gt Ordering.eq = ⊥
  SignLe Ordering.gt Ordering.gt = Unit

  SignLe-gt : (s : Ordering) → SignLe s Ordering.gt
  unfolding SignLe
  SignLe-gt Ordering.lt = tt
  SignLe-gt Ordering.eq = tt
  SignLe-gt Ordering.gt = tt

  pub infinite_mono : (s t : Ordering) → SignLe s t → Le (infinite s) (infinite t)
  unfolding infinite SignLe
  infinite_mono Ordering.lt t h = tt
  infinite_mono Ordering.eq Ordering.lt h = absurd h
  infinite_mono Ordering.eq Ordering.eq h = omega arith
  infinite_mono Ordering.eq Ordering.gt h = tt
  infinite_mono Ordering.gt Ordering.lt h = absurd h
  infinite_mono Ordering.gt Ordering.eq h = absurd h
  infinite_mono Ordering.gt Ordering.gt h = tt

  pub opposite_anti : (s t : Ordering) → SignLe s t → SignLe (opposite t) (opposite s)
  unfolding SignLe
  opposite_anti Ordering.lt Ordering.lt h = tt
  opposite_anti Ordering.lt Ordering.eq h = tt
  opposite_anti Ordering.lt Ordering.gt h = tt
  opposite_anti Ordering.eq Ordering.lt h = absurd h
  opposite_anti Ordering.eq Ordering.eq h = tt
  opposite_anti Ordering.eq Ordering.gt h = tt
  opposite_anti Ordering.gt Ordering.lt h = absurd h
  opposite_anti Ordering.gt Ordering.eq h = absurd h
  opposite_anti Ordering.gt Ordering.gt h = tt

  pub sign_mono : (a b : Bound A.Z) → Le a b → SignLe (sign a) (sign b)
  unfolding sign SignLe
  sign_mono minf b h = tt
  sign_mono (finite x) minf h = absurd h
  sign_mono (finite x) (finite y) h = ground (arith, L.sign_law x, L.sign_law y)
  sign_mono (finite x) pinf h = SignLe-gt (A.sign x)
  sign_mono pinf minf h = absurd h
  sign_mono pinf (finite y) h = absurd h
  sign_mono pinf pinf h = tt
