-- ===== src/Ints/Bound/Remainder.antt =====
-- Remainders of integers, with the sign of the dividend.
use Prim.Native.Nat.{◌/◌, ◌%◌}
use native.Mathlib.Nat.{div-add-mod, mod-lt, zero-lt-suc}
use native.Mathlib.Nat.{div-eq_of_lt}
use mopsa_ocaml.Prelude.{
  ℕ, zero, suc, ℤ, pos, negsuc, ◌*◌, ◌≡◌, ◌<◌, ◌≤◌, ◌∙◌, refl, arith, ap, sym,
}
use mopsa_ocaml.Prelude.Signed.{pos_part, neg_part, ◌≤ℤ◌}
use mopsa_ocaml.Stub.Numbers.Divide.{quotient, remainder, negated, minus}
use mopsa_ocaml.Ints.Bound.Quotient.{negated_anti, negated_low}

pub minus_parts : (v : ℤ) → (pos_part (minus v) ≡ neg_part v) × (neg_part (minus v) ≡ pos_part v)
minus_parts (pos zero) = (refl, refl)
minus_parts (pos (suc n)) = (refl, refl)
minus_parts (negsuc n) = (refl, refl)

-- The magnitude of an integer.
abbrev pub size : ℤ → ℕ
size (pos n) = n
size (negsuc n) = suc n

pub remainder_size : (x y : ℤ) → remainder x y ≡ remainder x (pos (size y))
remainder_size (pos a) (pos b) = refl
remainder_size (pos a) (negsuc b) = refl
remainder_size (negsuc a) (pos b) = refl
remainder_size (negsuc a) (negsuc b) = refl

mod_same : (m b : ℕ) → m < suc b → m % suc b ≡ m
mod_same m b h = omega (arith, div-add-mod m (suc b), ap (λ (t : ℕ). suc b * t) (div-eq_of_lt h))

-- What is smaller than the divisor is its own remainder.
pub remainder_same : (x : ℤ) (b : ℕ) → size x < suc b → remainder x (pos (suc b)) ≡ x
remainder_same (pos a) b h = ap pos (mod_same a b h)
remainder_same (negsuc a) b h = ap negated (mod_same (suc a) b h)

negated_parts : (n : ℕ) → (pos_part (negated n) ≡ 0) × (neg_part (negated n) ≡ n)
negated_parts zero = (refl, refl)
negated_parts (suc n) = (refl, refl)

pub remainder_small :
    (x : ℤ) (b : ℕ)
    → (pos_part (remainder x (pos (suc b))) < suc b)
      × (neg_part (remainder x (pos (suc b))) < suc b)
remainder_small (pos a) b = (omega (arith, mod-lt a (zero-lt-suc b)), omega arith)
remainder_small (negsuc a) b =
    let (p, n) = negated_parts (suc a % suc b) in
    (omega (arith, p), omega (arith, n, mod-lt (suc a) (zero-lt-suc b)))

pub remainder_nonneg : (x : ℤ) (b : ℕ) → pos 0 ≤ℤ x → neg_part (remainder x (pos (suc b))) ≡ 0
remainder_nonneg (pos a) b h = refl
remainder_nonneg (negsuc a) b h = absurd (omega arith)

pub remainder_nonpos : (x : ℤ) (b : ℕ) → x ≤ℤ pos 0 → pos_part (remainder x (pos (suc b))) ≡ 0
remainder_nonpos (pos zero) b h = mod_same 0 b (omega arith)
remainder_nonpos (pos (suc a)) b h = absurd (omega arith)
remainder_nonpos (negsuc a) b h = (negated_parts (suc a % suc b)).0

mod_mono : (m n b : ℕ) → m / suc b ≡ n / suc b → m ≤ n → m % suc b ≤ n % suc b
mod_mono m n b e h =
    omega (arith, div-add-mod m (suc b), div-add-mod n (suc b), ap (λ (t : ℕ). suc b * t) e)

negated_injective : (m n : ℕ) → negated m ≡ negated n → m ≡ n
negated_injective m n e = sym (negated_parts m).1 ∙ ap neg_part e ∙ (negated_parts n).1

-- Where the quotients agree the remainders are in order.
pub remainder_mono :
    (x y : ℤ) (b : ℕ)
    → quotient x (pos (suc b)) ≡ quotient y (pos (suc b))
    → x ≤ℤ y
    → remainder x (pos (suc b)) ≤ℤ remainder y (pos (suc b))
remainder_mono (pos m) (pos n) b e h = omega (arith, mod_mono m n b (ap pos_part e) (omega arith))
remainder_mono (pos m) (negsuc n) b e h = absurd (omega arith)
remainder_mono (negsuc m) (pos n) b e h = negated_low (suc m % suc b) (n % suc b)
remainder_mono (negsuc m) (negsuc n) b e h =
    negated_anti (suc n % suc b) (suc m % suc b)
      (mod_mono (suc n) (suc m) b (negated_injective _ _ (sym e)) (omega arith))
