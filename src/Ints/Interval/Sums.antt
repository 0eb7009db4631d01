-- ===== src/Ints/Interval/Sums.antt =====
-- Sums, differences and negations of intervals.
use mopsa_ocaml.Prelude.{◌≡◌, refl, true, some}
use mopsa_ocaml.Prelude.Signed.{◌≤ℤ◌, signed}
use mopsa_ocaml.Ints.Zarith.{Zarith, Laws}
use mopsa_ocaml.Ints.Bound.{Bound, minf, pinf, finite}
use mopsa_ocaml.Ints.Bound as B
use mopsa_ocaml.Ints.Bound.Order.{Le}
use mopsa_ocaml.Ints.Interval.{Itv, contains}
use mopsa_ocaml.Ints.Interval.Forward.{add, sub}
use mopsa_ocaml.Ints.Interval.Lattice.{contains-In}

module _ ⦃A : Zarith⦄ ⦃L : Laws A⦄ where
  add_mono :
      (p q x y : A.Z)
      → L.value p ≤ℤ L.value x
      → L.value q ≤ℤ L.value y
      → L.value (A.add p q) ≤ℤ L.value (A.add x y)
  add_mono p q x y h l = rw (L.add_law p q, L.add_law x y) (omega signed)

  sub_mono :
      (p q x y : A.Z)
      → L.value p ≤ℤ L.value x
      → L.value y ≤ℤ L.value q
      → L.value (A.sub p q) ≤ℤ L.value (A.sub x y)
  sub_mono p q x y h l = rw (L.sub_law p q, L.sub_law x y) (omega signed)

  add_low :
      (a c : Bound A.Z) (x y : A.Z)
      → Le a (finite x)
      → Le c (finite y)
      → (k : Bound A.Z) × (B.add a c ≡ some k) × Le k (finite (A.add x y))
  unfolding B.add
  add_low minf minf x y h l = (minf, refl, tt)
  add_low minf (finite q) x y h l = (minf, refl, tt)
  add_low minf pinf x y h l = absurd l
  add_low (finite p) minf x y h l = (minf, refl, tt)
  add_low (finite p) (finite q) x y h l = (finite (A.add p q), refl, add_mono p q x y h l)
  add_low (finite p) pinf x y h l = absurd l
  add_low pinf c x y h l = absurd h

  add_high :
      (a c : Bound A.Z) (x y : A.Z)
      → Le (finite x) a
      → Le (finite y) c
      → (k : Bound A.Z) × (B.add a c ≡ some k) × Le (finite (A.add x y)) k
  unfolding B.add
  add_high pinf pinf x y h l = (pinf, refl, tt)
  add_high pinf (finite q) x y h l = (pinf, refl, tt)
  add_high pinf minf x y h l = absurd l
  add_high (finite p) pinf x y h l = (pinf, refl, tt)
  add_high (finite p) (finite q) x y h l = (finite (A.add p q), refl, add_mono x y p q h l)
  add_high (finite p) minf x y h l = absurd l
  add_high minf c x y h l = absurd h

  sub_low :
      (a c : Bound A.Z) (x y : A.Z)
      → Le a (finite x)
      → Le (finite y) c
      → (k : Bound A.Z) × (B.sub a c ≡ some k) × Le k (finite (A.sub x y))
  unfolding B.sub
  sub_low minf pinf x y h l = (minf, refl, tt)
  sub_low minf (finite q) x y h l = (minf, refl, tt)
  sub_low minf minf x y h l = absurd l
  sub_low (finite p) pinf x y h l = (minf, refl, tt)
  sub_low (finite p) (finite q) x y h l = (finite (A.sub p q), refl, sub_mono p q x y h l)
  sub_low (finite p) minf x y h l = absurd l
  sub_low pinf c x y h l = absurd h

  sub_high :
      (a c : Bound A.Z) (x y : A.Z)
      → Le (finite x) a
      → Le c (finite y)
      → (k : Bound A.Z) × (B.sub a c ≡ some k) × Le (finite (A.sub x y)) k
  unfolding B.sub
  sub_high pinf minf x y h l = (pinf, refl, tt)
  sub_high pinf (finite q) x y h l = (pinf, refl, tt)
  sub_high pinf pinf x y h l = absurd l
  sub_high (finite p) minf x y h l = (pinf, refl, tt)
  sub_high (finite p) (finite q) x y h l = (finite (A.sub p q), refl, sub_mono x y p q h l)
  sub_high (finite p) pinf x y h l = absurd l
  sub_high minf c x y h l = absurd h

  -- For integers that obey Zarith's laws, any two intervals and any members of them: add of the
  -- intervals raises no exception and gives an interval that contains the sum of the members.
  pub add-contains :
      (i j : Itv) (x y : A.Z)
      → contains x i ≡ true
      → contains y j ≡ true
      → (k : Itv) × (add i j ≡ some k) × (contains (A.add x y) k ≡ true)
  unfolding add
  add-contains (a, b) (c, d) x y h l =
      let (xa, xb) = (contains-In x (a, b)).0 h in
      let (yc, yd) = (contains-In y (c, d)).0 l in
      let (low, e, below) = add_low a c x y xa yc in
      let (high, e', above) = add_high b d x y xb yd in
      ((low, high), rw (e, e') refl, (contains-In (A.add x y) (low, high)).1 (below, above))

  -- For integers that obey Zarith's laws, any two intervals and any members of them: sub of the
  -- intervals raises no exception and gives an interval that contains the difference of the
  -- members.
  pub sub-contains :
      (i j : Itv) (x y : A.Z)
      → contains x i ≡ true
      → contains y j ≡ true
      → (k : Itv) × (sub i j ≡ some k) × (contains (A.sub x y) k ≡ true)
  unfolding sub
  sub-contains (a, b) (c, d) x y h l =
      let (xa, xb) = (contains-In x (a, b)).0 h in
      let (yc, yd) = (contains-In y (c, d)).0 l in
      let (low, e, below) = sub_low a d x y xa yd in
      let (high, e', above) = sub_high b c x y xb yc in
      ((low, high), rw (e, e') refl, (contains-In (A.sub x y) (low, high)).1 (below, above))
