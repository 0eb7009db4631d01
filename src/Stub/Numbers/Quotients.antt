-- ===== src/Stub/Numbers/Quotients.antt =====
-- The outcomes of div of share/mopsa/stubs/c/libc/stdlib.c.
use mathlib.Core.Path.{◌≡◌}
use Prim.Native.Nat.{◌/◌, ◌%◌}
use native.Mathlib.Decide.{dec_lt}
use native.Mathlib.Nat.{div-add-mod, mod-le, div-le_self, div-lt_self}
use mopsa_ocaml.Prelude.{
  ℕ, zero, suc, ℤ, pos, negsuc, ◌+◌, ◌*◌, ◌≤◌, ◌<◌, ◌↔◌, ◌≢◌, refl, ap, sym, ◌∙◌, arith,
}
use mopsa_ocaml.Prelude.{◌⊎◌, inl, inr}
use mopsa_ocaml.Prelude.Signed.{pos_part, neg_part, ◌+ℤ◌, ◌*ℤ◌, *ℤ_parts, +ℤ_parts, eq_of_parts}
use mopsa_ocaml.Stub.Numbers.Divide.{
  Division, negated, quotient, remainder, int_max, div, wrap_expr,
}

-- A value of the type int.
abbrev pub FitsInt : ℤ → Type 0
FitsInt (pos n) = n ≤ int_max
FitsInt (negsuc n) = n ≤ int_max

negated-FitsInt : (n : ℕ) → n ≤ int_max + 1 → FitsInt (negated n)
negated-FitsInt zero h = omega arith
negated-FitsInt (suc n) h = omega arith

quotient_fits :
    (a b : ℤ)
    → FitsInt a
    → b ≢ pos 0
    → ¬ ((a ≡ negsuc int_max) × (b ≡ negsuc 0))
    → FitsInt (quotient a b)
quotient_fits (pos a) (pos b) fits nonzero apart = omega (arith, div-le_self a b)
quotient_fits (pos a) (negsuc b) fits nonzero apart =
    negated-FitsInt (a / suc b) (omega (arith, div-le_self a (suc b)))
quotient_fits (negsuc a) (pos b) fits nonzero apart =
    negated-FitsInt (suc a / b) (omega (arith, div-le_self (suc a) b))
quotient_fits (negsuc a) (negsuc zero) fits nonzero apart = elim (dec_lt a int_max) [
  | yes less ↦ omega (arith, div-le_self (suc a) 1)
  | no more ↦ absurd (apart (ap negsuc (omega arith), refl))
]
quotient_fits (negsuc a) (negsuc (suc b)) fits nonzero apart =
    let less : suc a / suc (suc b) < suc a = div-lt_self (omega arith) (omega arith) in omega arith

remainder_fits : (a b : ℤ) → FitsInt a → FitsInt (remainder a b)
remainder_fits (pos a) (pos b) fits = omega (arith, mod-le a b)
remainder_fits (pos a) (negsuc b) fits = omega (arith, mod-le a (suc b))
remainder_fits (negsuc a) (pos b) fits =
    negated-FitsInt (suc a % b) (omega (arith, mod-le (suc a) b))
remainder_fits (negsuc a) (negsuc b) fits =
    negated-FitsInt (suc a % suc b) (omega (arith, mod-le (suc a) (suc b)))

wrap-FitsInt : (x : ℤ) → FitsInt x → wrap_expr int_max x ≡ x
unfolding wrap_expr
wrap-FitsInt (pos n) h = ground arith
wrap-FitsInt (negsuc n) h = ground arith

negated_parts : (n : ℕ) → (pos_part (negated n) ≡ 0) × (neg_part (negated n) ≡ n)
negated_parts zero = (refl, refl)
negated_parts (suc n) = (refl, refl)

combine :
    (x y q r : ℤ)
    → pos_part x + (pos_part y * neg_part q + neg_part y * pos_part q) + neg_part r
      ≡ neg_part x + (pos_part y * pos_part q + neg_part y * neg_part q) + pos_part r
    → x ≡ (y *ℤ q) +ℤ r
combine x y q r e = eq_of_parts x ((y *ℤ q) +ℤ r) (omega (arith, *ℤ_parts y q, +ℤ_parts (y *ℤ q) r))

-- The dividend is the divisor times the quotient plus the remainder.
quotient-remainder : (a b : ℤ) → a ≡ (b *ℤ quotient a b) +ℤ remainder a b
quotient-remainder (pos a) (pos b) =
    combine (pos a) (pos b) (pos (a / b)) (pos (a % b)) (omega (arith, div-add-mod a b))
quotient-remainder (pos a) (negsuc b) =
    let (p, n) = negated_parts (a / suc b) in
    combine (pos a) (negsuc b) (negated (a / suc b)) (pos (a % suc b))
      (rw (p, n) (omega (arith, div-add-mod a (suc b))))
quotient-remainder (negsuc a) (pos b) =
    let (p, n) = negated_parts (suc a / b) in
    let (p', n') = negated_parts (suc a % b) in
    combine (negsuc a) (pos b) (negated (suc a / b)) (negated (suc a % b))
      (rw (p, n, p', n') (omega (arith, div-add-mod (suc a) b)))
quotient-remainder (negsuc a) (negsuc b) =
    let (p', n') = negated_parts (suc a % suc b) in
    combine (negsuc a) (negsuc b) (pos (suc a / suc b)) (negated (suc a % suc b))
      (rw (p', n') (omega (arith, div-add-mod (suc a) (suc b))))

overflow_cases :
    (a b : ℤ)
    → ((a ≡ negsuc int_max) × (b ≡ negsuc 0)) ⊎ (¬ ((a ≡ negsuc int_max) × (b ≡ negsuc 0)))
overflow_cases (pos a) b = inr (λ (e, _). cc)
overflow_cases (negsuc a) (pos b) = inr (λ (_, e). cc)
overflow_cases (negsuc a) (negsuc (suc b)) = inr (λ (_, e). absurd (omega (arith, ap neg_part e)))
overflow_cases (negsuc a) (negsuc zero) = elim (dec_lt a int_max) [
  | yes less ↦ inr (λ (e, _). absurd (omega (arith, ap neg_part e)))
  | no more ↦ elim (dec_lt int_max a) [
    | yes less ↦ inr (λ (e, _). absurd (omega (arith, ap neg_part e)))
    | no not_less ↦ inl (ap negsuc (omega arith), refl)
  ]
]

wrapped : wrap_expr int_max (quotient (negsuc int_max) (negsuc 0)) ≡ negsuc int_max
unfolding wrap_expr
wrapped = refl

unequal : negsuc int_max ≢ ((negsuc 0 *ℤ negsuc int_max) +ℤ pos 0)
unfolding ◌*ℤ◌ ◌+ℤ◌
unequal e = cc

-- If the dividend is an int and div's requirements hold, then the quotient and the remainder of
-- every outcome of div's contract are ints, and the dividend is the divisor times the quotient plus
-- the remainder exactly where it is not INT_MIN divided by -1, whose quotient wraps around.
pub div-FitsInt :
    (numer denom : ℤ) (o : Division)
    → FitsInt numer
    → (div numer denom).requires
    → (div numer denom).ensures o
    → FitsInt (o.quot)
      × FitsInt (o.rem)
      × ((numer ≡ (denom *ℤ o.quot) +ℤ o.rem) ↔ (¬ ((numer ≡ negsuc int_max) × (denom ≡ negsuc 0))))
unfolding div
div-FitsInt a b o fits (nonzero, _) (quot, rem) = elim (overflow_cases a b) [
  | inr apart ↦
      let within = quotient_fits a b fits nonzero apart in
      let same = quot ∙ wrap-FitsInt (quotient a b) within in
      (
        rw same within,
        rw rem (remainder_fits a b fits),
        ((λ _. apart), λ _. rw (same, rem) (quotient-remainder a b)),
      )
  | inl (ea, eb) ↦
      let least : o.quot ≡ negsuc int_max = quot ∙ rw (ea, eb) wrapped in
      let rest : o.rem ≡ pos 0 = rem ∙ rw (ea, eb) refl in
      (
        rw least (omega arith),
        rw rest (omega arith),
        (
          (λ e. absurd (unequal (sym ea ∙ e ∙ rw (eb, least, rest) refl))),
          λ apart. absurd (apart (ea, eb)),
        ),
      )
]
