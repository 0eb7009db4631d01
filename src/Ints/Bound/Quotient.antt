-- ===== src/Ints/Bound/Quotient.antt =====
-- Quotients of integers, which round to zero.
use Prim.Native.Nat.{◌/◌}
use native.Mathlib.Nat.{le-div_iff_mul-le, div-mul-le_self, mul-le-mul_left, zero-lt-suc}
use mopsa_ocaml.Prelude.{ℕ, zero, suc, ℤ, pos, negsuc, ◌≤◌, ◌⊎◌, inl, inr, arith}
use mopsa_ocaml.Prelude.Signed.{◌≤ℤ◌}
use mopsa_ocaml.Stub.Numbers.Divide.{quotient, negated}

div_mono : (m n b : ℕ) → m ≤ n → m / suc b ≤ n / suc b
div_mono m n b h = (le-div_iff_mul-le (zero-lt-suc b)).1 (omega (arith, div-mul-le_self m (suc b)))

div_anti : (m b c : ℕ) → b ≤ c → m / suc c ≤ m / suc b
div_anti m b c h =
    (le-div_iff_mul-le (zero-lt-suc b)).1
      (omega (arith, div-mul-le_self m (suc c), mul-le-mul_left (m / suc c) h))

pub negated_anti : (m n : ℕ) → m ≤ n → negated n ≤ℤ negated m
negated_anti zero zero h = omega arith
negated_anti zero (suc n) h = omega arith
negated_anti (suc m) zero h = absurd (omega arith)
negated_anti (suc m) (suc n) h = omega arith

pub negated_low : (m n : ℕ) → negated m ≤ℤ pos n
negated_low zero n = omega arith
negated_low (suc m) n = omega arith

-- The dividend.
pub quotient_mono : (x y v : ℤ) → x ≤ℤ y → pos 1 ≤ℤ v → quotient x v ≤ℤ quotient y v
quotient_mono x y (pos zero) h k = absurd (omega arith)
quotient_mono x y (negsuc b) h k = absurd (omega arith)
quotient_mono (pos m) (pos n) (pos (suc b)) h k = omega (arith, div_mono m n b (omega arith))
quotient_mono (pos m) (negsuc n) (pos (suc b)) h k = absurd (omega arith)
quotient_mono (negsuc m) (pos n) (pos (suc b)) h k = negated_low (suc m / suc b) (n / suc b)
quotient_mono (negsuc m) (negsuc n) (pos (suc b)) h k =
    negated_anti (suc n / suc b) (suc m / suc b) (div_mono (suc n) (suc m) b (omega arith))

pub quotient_anti : (x y v : ℤ) → x ≤ℤ y → v ≤ℤ negsuc 0 → quotient y v ≤ℤ quotient x v
quotient_anti x y (pos b) h k = absurd (omega arith)
quotient_anti (pos m) (pos n) (negsuc b) h k =
    negated_anti (m / suc b) (n / suc b) (div_mono m n b (omega arith))
quotient_anti (pos m) (negsuc n) (negsuc b) h k = absurd (omega arith)
quotient_anti (negsuc m) (pos n) (negsuc b) h k = negated_low (n / suc b) (suc m / suc b)
quotient_anti (negsuc m) (negsuc n) (negsuc b) h k =
    omega (arith, div_mono (suc n) (suc m) b (omega arith))

-- The divisor: as it moves away from zero the quotient moves to zero.
abbrev pub Nearer : ℤ → ℤ → Type 0
Nearer p q = ((pos 0 ≤ℤ p) × (p ≤ℤ q)) ⊎ ((q ≤ℤ p) × (p ≤ℤ pos 0))

pub divisor_above : (x u v : ℤ) → pos 1 ≤ℤ u → u ≤ℤ v → Nearer (quotient x v) (quotient x u)
divisor_above x (pos zero) v h k = absurd (omega arith)
divisor_above x (negsuc b) v h k = absurd (omega arith)
divisor_above x (pos (suc b)) (pos zero) h k = absurd (omega arith)
divisor_above x (pos (suc b)) (negsuc c) h k = absurd (omega arith)
divisor_above (pos m) (pos (suc b)) (pos (suc c)) h k =
    inl (omega arith, omega (arith, div_anti m b c (omega arith)))
divisor_above (negsuc m) (pos (suc b)) (pos (suc c)) h k = inr (
  negated_anti (suc m / suc c) (suc m / suc b) (div_anti (suc m) b c (omega arith)),
  negated_low (suc m / suc c) 0,
)

pub divisor_below : (x u v : ℤ) → u ≤ℤ negsuc 0 → v ≤ℤ u → Nearer (quotient x v) (quotient x u)
divisor_below x (pos b) v h k = absurd (omega arith)
divisor_below x (negsuc b) (pos c) h k = absurd (omega arith)
divisor_below (pos m) (negsuc b) (negsuc c) h k =
    inr (
      negated_anti (m / suc c) (m / suc b) (div_anti m b c (omega arith)),
      negated_low (m / suc c) 0,
    )
divisor_below (negsuc m) (negsuc b) (negsuc c) h k =
    inl (omega arith, omega (arith, div_anti (suc m) b c (omega arith)))

-- Three quotients, each nearer to zero than the one before, are in one order or the other.
pub spread_ordered :
    (p q r : ℤ) → Nearer q p → Nearer r q → ((p ≤ℤ q) × (q ≤ℤ r)) ⊎ ((r ≤ℤ q) × (q ≤ℤ p))
spread_ordered p q r (inl (a, b)) (inl (c, d)) = inr (omega arith, omega arith)
spread_ordered p q r (inl (a, b)) (inr (c, d)) = inr (omega arith, omega arith)
spread_ordered p q r (inr (a, b)) (inl (c, d)) = inl (omega arith, omega arith)
spread_ordered p q r (inr (a, b)) (inr (c, d)) = inl (omega arith, omega arith)

pub nearest_zero : (p q : ℤ) → Nearer p q → Nearer (pos 0) p
nearest_zero p q (inl (a, b)) = inl (omega arith, a)
nearest_zero p q (inr (a, b)) = inr (b, omega arith)
