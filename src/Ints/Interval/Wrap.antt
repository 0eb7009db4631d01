-- ===== src/Ints/Interval/Wrap.antt =====
-- Wrapping around a range of machine integers.
use mopsa_ocaml.Prelude.{◌≡◌, ◌&&◌, refl, inl, inr, true, some, arith, Bool-cases, ◌∙◌, sym}
use mopsa_ocaml.Prelude.Signed.{◌≤ℤ◌, ◌+ℤ◌, ◌*ℤ◌}
use mopsa_ocaml.Ints.Zarith.{Zarith, Laws}
use mopsa_ocaml.Ints.Bound.{minf, pinf, finite, leq, level}
use mopsa_ocaml.Ints.Bound.Order.{Le_refl, leq-Le}
use mopsa_ocaml.Ints.Interval.{Itv, contains, included}
use mopsa_ocaml.Ints.Interval.Forward.{wrap}
use mopsa_ocaml.Ints.Interval.Range.{
  width, wrapped, wrapped_range, wrapped_same, wrapped_mono, wrapped_unique, quotient_between,
  In-value, level_value,
}
use mopsa_ocaml.Ints.Interval.Lattice.{In, Within, contains-In, included-Within}

module _ ⦃A : Zarith⦄ ⦃L : Laws A⦄ (lo up : A.Z) (ordered : L.value lo ≤ℤ L.value up) where
  Wraps : Itv → A.Z → Type 0
  Wraps i x =
      (k : Itv) × (wrap i lo up ≡ some k) × In (wrapped lo up x) k × Within k (finite lo, finite up)

  bounded-Wraps :
      (p q x : A.Z) → L.value p ≤ℤ L.value x → L.value x ≤ℤ L.value q → Wraps (finite p, finite q) x
  unfolding wrap Wraps wrapped width
  bounded-Wraps p q x h k =
      elim (Bool-cases (leq (finite lo) (finite p) && leq (finite q) (finite up))) [
        | inl inside ↦
            let low = (leq-Le (finite lo) (finite p)).0 (ground arith) in
            let high = (leq-Le (finite q) (finite up)).0 (ground arith) in
            let same = sym (wrapped_same lo up ordered x (omega arith, omega arith)) in
            (
              (finite p, finite q),
              rw inside refl,
              In-value (finite p, finite q) x (wrapped lo up x) same (h, k),
              (low, high),
            )
        | inr outside ↦
            elim (Bool-cases (
              level (
                A.compare (A.ediv (A.sub p lo) (width lo up))
                  (A.ediv (A.sub q lo) (width lo up))))) [
                    | inl turn ↦
                        let ends =
                          level_value (A.ediv (A.sub p lo) (width lo up))
                            (A.ediv (A.sub q lo) (width lo up)) turn in
                        let first = quotient_between lo up ordered p x q h k ends in
                        (
                          (finite (wrapped lo up p), finite (wrapped lo up q)),
                          rw (outside, turn) refl,
                          (
                            wrapped_mono lo up ordered p x h first,
                            wrapped_mono lo up ordered x q k (sym first ∙ ends),
                          ),
                          ((wrapped_range lo up ordered p).0, (wrapped_range lo up ordered q).1),
                        )
                    | inr turns ↦ (
                      (finite lo, finite up),
                      rw (outside, turns) refl,
                      wrapped_range lo up ordered x,
                      (Le_refl (finite lo), Le_refl (finite up)),
                    )
                  ]
      ]

  wraps : (i : Itv) (x : A.Z) → In x i → Wraps i x
  unfolding wrap Wraps
  wraps (finite p, finite q) x (h, k) = bounded-Wraps p q x h k
  wraps (minf, b) x h = (
    (finite lo, finite up),
    refl,
    wrapped_range lo up ordered x,
    (Le_refl (finite lo), Le_refl (finite up)),
  )
  wraps (finite p, pinf) x h = (
    (finite lo, finite up),
    refl,
    wrapped_range lo up ordered x,
    (Le_refl (finite lo), Le_refl (finite up)),
  )
  wraps (finite p, minf) x (h, k) = absurd k
  wraps (pinf, b) x (h, k) = absurd h

  -- For integers that obey Zarith's laws, a range from lo to up that is not empty, a member x of an
  -- interval and a number y in the range that is congruent to x modulo the size of the range: wrap
  -- of the interval gives an interval that contains y and lies in the range.
  pub wrap-contains :
      (i : Itv) (x y q : A.Z)
      → contains x i ≡ true
      → contains y (finite lo, finite up) ≡ true
      → L.value x ≡ (L.value (A.succ (A.sub up lo)) *ℤ L.value q) +ℤ L.value y
      → (k : Itv) × (wrap i lo up ≡ some k)
        × (contains y k ≡ true)
        × (included k (finite lo, finite up) ≡ true)
  unfolding Wraps width
  wrap-contains i x y q h l e =
      let (k, returned, found, within) = wraps i x ((contains-In x i).0 h) in
      let same =
        wrapped_unique lo up ordered x y q ((contains-In y (finite lo, finite up)).0 l) e in
      (
        k,
        returned,
        (contains-In y k).1 (In-value k (wrapped lo up x) y same found),
        (included-Within k (finite lo, finite up)).1 within,
      )
