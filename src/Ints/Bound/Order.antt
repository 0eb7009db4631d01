-- ===== src/Ints/Bound/Order.antt =====
-- The order of the bounds.
use mopsa_ocaml.Prelude.{◌≡◌, ◌↔◌, ◌⊎◌, refl, inl, inr, true, false, not, arith, Bool-cases}
use mopsa_ocaml.Prelude.Signed.{◌≤ℤ◌}
use mopsa_ocaml.Ints.Zarith.{Zarith, Laws}
use mopsa_ocaml.Ints.Bound.{Bound, minf, pinf, finite, leq, geq, lt, gt, min, max}

module _ ⦃A : Zarith⦄ ⦃L : Laws A⦄ where
  abbrev pub Le : Bound A.Z → Bound A.Z → Type 0
  Le minf b = Unit
  Le (finite x) minf = ⊥
  Le (finite x) (finite y) = L.value x ≤ℤ L.value y
  Le (finite x) pinf = Unit
  Le pinf minf = ⊥
  Le pinf (finite y) = ⊥
  Le pinf pinf = Unit

  -- Between two bounds, in one order or the other.
  abbrev pub Between : Bound A.Z → Bound A.Z → Bound A.Z → Type 0
  Between l r v = (Le l v × Le v r) ⊎ (Le r v × Le v l)

  pub leq-Le : (a b : Bound A.Z) → (leq a b ≡ true) ↔ Le a b
  unfolding leq
  leq-Le minf minf = (λ h. tt, λ h. refl)
  leq-Le minf (finite y) = (λ h. tt, λ h. refl)
  leq-Le minf pinf = (λ h. tt, λ h. refl)
  leq-Le (finite x) minf = (λ h. cc, λ h. absurd h)
  leq-Le (finite x) (finite y) =
      ((λ h. ground (arith, L.compare_law x y)), λ h. ground (arith, L.compare_law x y))
  leq-Le (finite x) pinf = (λ h. tt, λ h. refl)
  leq-Le pinf minf = (λ h. cc, λ h. absurd h)
  leq-Le pinf (finite y) = (λ h. cc, λ h. absurd h)
  leq-Le pinf pinf = (λ h. tt, λ h. refl)

  pub Le_refl : (a : Bound A.Z) → Le a a
  Le_refl minf = tt
  Le_refl (finite x) = omega arith
  Le_refl pinf = tt

  pub Le_pinf : (a : Bound A.Z) → Le a pinf
  Le_pinf minf = tt
  Le_pinf (finite x) = tt
  Le_pinf pinf = tt

  pub Le_total : (a b : Bound A.Z) → Le a b ⊎ Le b a
  Le_total minf b = inl tt
  Le_total (finite x) minf = inr tt
  Le_total (finite x) (finite y) = omega arith
  Le_total (finite x) pinf = inl tt
  Le_total pinf minf = inr tt
  Le_total pinf (finite y) = inr tt
  Le_total pinf pinf = inl tt

  pub Le_trans : (a b c : Bound A.Z) → Le a b → Le b c → Le a c
  Le_trans minf b c h k = tt
  Le_trans (finite x) minf c h k = absurd h
  Le_trans (finite x) (finite y) minf h k = absurd k
  Le_trans (finite x) (finite y) (finite z) h k = omega arith
  Le_trans (finite x) (finite y) pinf h k = tt
  Le_trans (finite x) pinf minf h k = absurd k
  Le_trans (finite x) pinf (finite z) h k = absurd k
  Le_trans (finite x) pinf pinf h k = tt
  Le_trans pinf minf c h k = absurd h
  Le_trans pinf (finite y) c h k = absurd h
  Le_trans pinf pinf minf h k = absurd k
  Le_trans pinf pinf (finite z) h k = absurd k
  Le_trans pinf pinf pinf h k = tt

  pub leq_false : (a b : Bound A.Z) → leq a b ≡ false → Le b a
  leq_false a b h = elim (Le_total a b) [
    | inl le ↦ absurd (ground (arith, (leq-Le a b).1 le))
    | inr ge ↦ ge
  ]

  -- The greatest lower bound and the least upper bound of two bounds.
  pub min_lower : (a b : Bound A.Z) → Le (min a b) a × Le (min a b) b
  unfolding min
  min_lower a b = elim (Bool-cases (leq a b)) [
    | inl le ↦ rw le (Le_refl a, (leq-Le a b).0 le)
    | inr gt ↦ rw gt (leq_false a b gt, Le_refl b)
  ]

  pub max_upper : (a b : Bound A.Z) → Le a (max a b) × Le b (max a b)
  unfolding max
  max_upper a b = elim (Bool-cases (leq a b)) [
    | inl le ↦ rw le ((leq-Le a b).0 le, Le_refl b)
    | inr gt ↦ rw gt (Le_refl a, leq_false a b gt)
  ]

  pub min_greatest : (a b c : Bound A.Z) → Le c a → Le c b → Le c (min a b)
  unfolding min
  min_greatest a b c h k = elim (Bool-cases (leq a b)) [ inl le ↦ rw le h | inr gt ↦ rw gt k ]

  pub max_least : (a b c : Bound A.Z) → Le a c → Le b c → Le (max a b) c
  unfolding max
  max_least a b c h k = elim (Bool-cases (leq a b)) [ inl le ↦ rw le k | inr gt ↦ rw gt h ]

  not-geq : (a b : Bound A.Z) → lt a b ≡ not (geq a b)
  unfolding lt geq
  not-geq a b = ground arith

  -- The other tests by `leq`.
  pub geq-leq : (a b : Bound A.Z) → geq a b ≡ leq b a
  unfolding geq leq
  geq-leq minf minf = refl
  geq-leq minf (finite y) = refl
  geq-leq minf pinf = refl
  geq-leq (finite x) minf = refl
  geq-leq (finite x) (finite y) = ground (arith, L.compare_law x y, L.compare_law y x)
  geq-leq (finite x) pinf = refl
  geq-leq pinf minf = refl
  geq-leq pinf (finite y) = refl
  geq-leq pinf pinf = refl

  pub gt-leq : (a b : Bound A.Z) → gt a b ≡ not (leq a b)
  unfolding gt leq
  gt-leq a b = refl

  pub lt-leq : (a b : Bound A.Z) → lt a b ≡ not (leq b a)
  lt-leq a b = rw (← geq-leq a b) (not-geq a b)
