-- ===== src/Ints/Interval/Range.antt =====
-- The number in a range of machine integers that stands for another one.
use mopsa_ocaml.Prelude.{ℤ, pos, ◌≡◌, ◌≢◌, ◌+◌, ◌<◌, true, arith, ◌∙◌, sym, ap}
use mopsa_ocaml.Prelude.Signed.{
  pos_part, neg_part, ◌≤ℤ◌, ◌+ℤ◌, ◌-ℤ◌, ◌*ℤ◌, one_part, eq_of_parts, signed,
}
use mopsa_ocaml.Prelude.Floor.{quotient_mono, remainder_unique, remainders_agree}
use mopsa_ocaml.Ints.Zarith.{Zarith, Laws}
use mopsa_ocaml.Ints.Bound.{Bound, minf, pinf, finite, level}
use mopsa_ocaml.Ints.Bound.Order.{Le}
use mopsa_ocaml.Ints.Interval.{Itv}
use mopsa_ocaml.Ints.Interval.Lattice.{In}

module _ ⦃A : Zarith⦄ (lo up : A.Z) where
  -- The width of the range.
  unfoldable pub width : A.Z
  width = A.succ (A.sub up lo)

  -- The number in the range that differs from `x` by a multiple of the width.
  unfoldable pub wrapped : A.Z → A.Z
  unfolding width
  wrapped x = A.add (A.erem (A.sub x lo) width) lo

module _ ⦃A : Zarith⦄ ⦃L : Laws A⦄ where
  Le_value : (a : Bound A.Z) (x y : A.Z) → L.value x ≡ L.value y → Le a (finite x) → Le a (finite y)
  Le_value minf x y e h = tt
  Le_value (finite p) x y e h = rw (← e) h
  Le_value pinf x y e h = h

  value_Le : (b : Bound A.Z) (x y : A.Z) → L.value x ≡ L.value y → Le (finite x) b → Le (finite y) b
  value_Le minf x y e h = h
  value_Le (finite p) x y e h = rw (← e) h
  value_Le pinf x y e h = tt

  pub In-value : (i : Itv) (x y : A.Z) → L.value x ≡ L.value y → In x i → In y i
  In-value (a, b) x y e (h, k) = (Le_value a x y e h, value_Le b x y e k)

  pub level_value : (x y : A.Z) → level (A.compare x y) ≡ true → L.value x ≡ L.value y
  level_value x y h = eq_of_parts (L.value x) (L.value y) (ground (arith, L.compare_law x y))

module _ ⦃A : Zarith⦄ ⦃L : Laws A⦄ (lo up : A.Z) (ordered : L.value lo ≤ℤ L.value up) where
  width_eq : L.value (width lo up) ≡ (L.value up -ℤ L.value lo) +ℤ pos 1
  unfolding width
  width_eq = L.succ_law (A.sub up lo) ∙ ap (λ (v : ℤ). v +ℤ pos 1) (L.sub_law up lo)

  width_value : (neg_part (L.value (width lo up)) ≡ 0) × (L.value (width lo up) ≢ pos 0)
  width_value =
      let one = one_part (L.value up -ℤ L.value lo +ℤ pos 1) in
      rw width_eq (omega signed, λ h. omega (signed, ap pos_part h, ap neg_part h))

  width_parts :
      pos_part (L.value (width lo up)) + pos_part (L.value lo) + neg_part (L.value up)
      ≡ pos_part (L.value up) + neg_part (L.value lo) + 1
  width_parts = let one = one_part (L.value up -ℤ L.value lo +ℤ pos 1) in rw width_eq (omega signed)

  wrapped_value :
      (x : A.Z)
      → L.value (wrapped lo up x) ≡ L.value (A.erem (A.sub x lo) (width lo up)) +ℤ L.value lo
  unfolding wrapped
  wrapped_value x = L.add_law (A.erem (A.sub x lo) (width lo up)) lo

  divided :
      (x : A.Z)
      → L.value x -ℤ L.value lo
        ≡ (L.value (width lo up) *ℤ L.value (A.ediv (A.sub x lo) (width lo up)))
          +ℤ L.value (A.erem (A.sub x lo) (width lo up))
  divided x = sym (L.sub_law x lo) ∙ L.ediv_law (A.sub x lo) (width lo up) width_value.1

  small :
      (x : A.Z)
      → (neg_part (L.value (A.erem (A.sub x lo) (width lo up))) ≡ 0)
        × (pos_part (L.value (A.erem (A.sub x lo) (width lo up)))
            < pos_part (L.value (width lo up)))
  small x =
      let (signed_part, bound) = L.erem_law (A.sub x lo) (width lo up) width_value.1 in
      (signed_part, omega (arith, width_value.0))

  pub wrapped_range : (x : A.Z) → In (wrapped lo up x) (finite lo, finite up)
  wrapped_range x =
      let (least, bound) = small x in
      let parts = width_parts in rw (wrapped_value x) (omega signed, omega signed)

  pub wrapped_same : (x : A.Z) → In x (finite lo, finite up) → L.value (wrapped lo up x) ≡ L.value x
  wrapped_same x (h, k) =
      let (least, bound) = small x in
      let parts = width_parts in
      let one = one_part (L.value x -ℤ L.value lo) in
      let fits : pos_part (L.value x -ℤ L.value lo) < pos_part (L.value (width lo up)) =
        omega signed in
      let same =
        remainder_unique (L.value (width lo up)) (L.value (A.ediv (A.sub x lo) (width lo up)))
          (L.value (A.erem (A.sub x lo) (width lo up))) (L.value x -ℤ L.value lo) width_value.0
          least bound (omega signed) fits (divided x) in
      wrapped_value x
      ∙ rw same (eq_of_parts (L.value x -ℤ L.value lo +ℤ L.value lo) (L.value x) (omega signed))

  quotients :
      (x y : A.Z)
      → L.value x ≤ℤ L.value y
      → L.value (A.ediv (A.sub x lo) (width lo up)) ≤ℤ L.value (A.ediv (A.sub y lo) (width lo up))
  quotients x y h =
      quotient_mono (L.value (width lo up)) (L.value (A.ediv (A.sub x lo) (width lo up)))
        (L.value (A.erem (A.sub x lo) (width lo up))) (L.value (A.ediv (A.sub y lo) (width lo up)))
        (L.value (A.erem (A.sub y lo) (width lo up))) width_value.0 (small x).0 (small y).1
        (rw (← divided x, ← divided y) (omega signed))

  -- Within one range the order stays.
  pub wrapped_mono :
      (x y : A.Z)
      → L.value x ≤ℤ L.value y
      → L.value (A.ediv (A.sub x lo) (width lo up)) ≡ L.value (A.ediv (A.sub y lo) (width lo up))
      → L.value (wrapped lo up x) ≤ℤ L.value (wrapped lo up y)
  wrapped_mono x y h e =
      let dx = rw e at (divided x) in
      let dy = divided y in
      let parts_x = ap pos_part dx in
      let parts_x' = ap neg_part dx in
      let parts_y = ap pos_part dy in
      let parts_y' = ap neg_part dy in rw (wrapped_value x, wrapped_value y) (omega signed)

  pub quotient_between :
      (x y z : A.Z)
      → L.value x ≤ℤ L.value y
      → L.value y ≤ℤ L.value z
      → L.value (A.ediv (A.sub x lo) (width lo up)) ≡ L.value (A.ediv (A.sub z lo) (width lo up))
      → L.value (A.ediv (A.sub x lo) (width lo up)) ≡ L.value (A.ediv (A.sub y lo) (width lo up))
  quotient_between x y z h k e =
      let left = quotients x y h in
      let right = rw (← e) at (quotients y z k) in
      eq_of_parts (L.value (A.ediv (A.sub x lo) (width lo up)))
        (L.value (A.ediv (A.sub y lo) (width lo up))) (omega arith)

  pub wrapped_unique :
      (x y q : A.Z)
      → In y (finite lo, finite up)
      → L.value x ≡ (L.value (width lo up) *ℤ L.value q) +ℤ L.value y
      → L.value (wrapped lo up x) ≡ L.value y
  wrapped_unique x y q (h, k) e =
      let (least, bound) = small x in
      let parts = width_parts in
      let one = one_part (L.value y -ℤ L.value lo) in
      let moved : (L.value (width lo up) *ℤ L.value q) +ℤ (L.value y -ℤ L.value lo)
          ≡ L.value x -ℤ L.value lo =
        rw e (
          eq_of_parts ((L.value (width lo up) *ℤ L.value q) +ℤ (L.value y -ℤ L.value lo))
            ((L.value (width lo up) *ℤ L.value q) +ℤ L.value y -ℤ L.value lo) (omega signed)) in
      let same =
        remainders_agree (L.value (width lo up)) (L.value (A.ediv (A.sub x lo) (width lo up)))
          (L.value (A.erem (A.sub x lo) (width lo up))) (L.value q) (L.value y -ℤ L.value lo)
          width_value.0 least bound (omega signed) (omega signed) (moved ∙ divided x) in
      wrapped_value x
      ∙ rw same (eq_of_parts (L.value y -ℤ L.value lo +ℤ L.value lo) (L.value y) (omega signed))
