-- ===== src/Prelude/Signed.antt =====
-- Sums, products and order of the integers, by their two parts, which are numbers.
use mathlib.Core.Path.{◌≡◌, refl}
use Prim.Native.Nat.{ℕ, zero, suc, ◌+◌, ◌-◌, ◌*◌, ◌≤◌, ◌<◌, Ordering, compare}
use native.Mathlib.Nat.{mul-le-mul_right}
use native.Mathlib.Omega.{arith}
use mathlib.Core.Logic.{◌⊎◌, inl, inr}
use mopsa_ocaml.Prelude.Integer.{ℤ, pos, negsuc}
use mopsa_ocaml.Prelude.Tests.{leb, if◌then◌else◌}

abbrev pub pos_part : ℤ → ℕ
pos_part (pos n) = n
pos_part (negsuc n) = 0

abbrev pub neg_part : ℤ → ℕ
neg_part (pos n) = 0
neg_part (negsuc n) = suc n

-- a - b, as an integer.
abbrev pub sub_ℕ : ℕ → ℕ → ℤ
sub_ℕ a b = if leb b a then pos (a - b) else negsuc (b - a - 1)

infixl 65 ◌+ℤ◌ ◌-ℤ◌
infixl 70 ◌*ℤ◌
infix 50 ◌≤ℤ◌
unfoldable pub ◌+ℤ◌ : ℤ → ℤ → ℤ
a +ℤ b = sub_ℕ (pos_part a + pos_part b) (neg_part a + neg_part b)

unfoldable pub ◌-ℤ◌ : ℤ → ℤ → ℤ
a -ℤ b = sub_ℕ (pos_part a + neg_part b) (neg_part a + pos_part b)

unfoldable pub ◌*ℤ◌ : ℤ → ℤ → ℤ
a *ℤ b =
    sub_ℕ (pos_part a * pos_part b + neg_part a * neg_part b)
      (pos_part a * neg_part b + neg_part a * pos_part b)

abbrev pub ◌≤ℤ◌ : ℤ → ℤ → Type 0
a ≤ℤ b = pos_part a + neg_part b ≤ pos_part b + neg_part a

abbrev pub compare_ℤ : ℤ → ℤ → Ordering
compare_ℤ a b = compare (pos_part a + neg_part b) (pos_part b + neg_part a)

pub +ℤ_parts :
    (a b : ℤ)
    → pos_part (a +ℤ b) + neg_part a + neg_part b ≡ neg_part (a +ℤ b) + pos_part a + pos_part b
unfolding ◌+ℤ◌
+ℤ_parts a b = ground arith

pub -ℤ_parts :
    (a b : ℤ)
    → pos_part (a -ℤ b) + neg_part a + pos_part b ≡ neg_part (a -ℤ b) + pos_part a + neg_part b
unfolding ◌-ℤ◌
-ℤ_parts a b = ground arith

sub_ℕ_parts : (a b : ℕ) → pos_part (sub_ℕ a b) + b ≡ neg_part (sub_ℕ a b) + a
sub_ℕ_parts a b = ground arith

pub *ℤ_parts :
    (a b : ℤ)
    → pos_part (a *ℤ b) + (pos_part a * neg_part b + neg_part a * pos_part b)
      ≡ neg_part (a *ℤ b) + (pos_part a * pos_part b + neg_part a * neg_part b)
unfolding ◌*ℤ◌
*ℤ_parts a b = sub_ℕ_parts _ _

-- One of the parts is zero.
pub one_part : (a : ℤ) → (neg_part a ≡ 0) ⊎ (pos_part a ≡ 0)
one_part (pos n) = inl refl
one_part (negsuc n) = inr refl

pub eq_of_parts : (a b : ℤ) → pos_part a + neg_part b ≡ pos_part b + neg_part a → a ≡ b
eq_of_parts a b h = ground arith

pub ruleset signed = (arith, +ℤ_parts, -ℤ_parts, eq_of_parts)

pub *ℤ_comm : (a b : ℤ) → a *ℤ b ≡ b *ℤ a
*ℤ_comm a b = eq_of_parts (a *ℤ b) (b *ℤ a) (omega (arith, *ℤ_parts a b, *ℤ_parts b a))

-- A product with a factor that is not negative keeps the order, and one that is not positive turns
-- it round.
pub *ℤ_mono : (a b c : ℤ) → a ≤ℤ b → neg_part c ≡ 0 → a *ℤ c ≤ℤ b *ℤ c
*ℤ_mono a b (pos c) h e =
    omega (arith, *ℤ_parts a (pos c), *ℤ_parts b (pos c), mul-le-mul_right c h)
*ℤ_mono a b (negsuc c) h e = absurd (omega arith)

pub *ℤ_anti : (a b c : ℤ) → a ≤ℤ b → pos_part c ≡ 0 → b *ℤ c ≤ℤ a *ℤ c
*ℤ_anti a b (pos zero) h e = omega (arith, *ℤ_parts a (pos 0), *ℤ_parts b (pos 0))
*ℤ_anti a b (pos (suc c)) h e = absurd (omega arith)
*ℤ_anti a b (negsuc c) h e =
    omega (arith, *ℤ_parts a (negsuc c), *ℤ_parts b (negsuc c), mul-le-mul_right (suc c) h)

-- x to the power of n.
abbrev pub power : ℤ → ℕ → ℤ
power x zero = pos 1
power x (suc n) = x *ℤ power x n

pub times_one : (x : ℤ) → x *ℤ pos 1 ≡ x
times_one x = eq_of_parts (x *ℤ pos 1) x (omega (arith, *ℤ_parts x (pos 1)))

-- The square of what is not zero is at least 1.
pub square_pos : (x : ℤ) → 0 < pos_part x + neg_part x → pos 1 ≤ℤ x *ℤ (x *ℤ pos 1)
square_pos (pos zero) h = absurd (omega arith)
square_pos (pos (suc n)) h =
    rw (times_one (pos (suc n))) (omega (arith, *ℤ_parts (pos (suc n)) (pos (suc n))))
square_pos (negsuc n) h = rw (times_one (negsuc n)) (omega (arith, *ℤ_parts (negsuc n) (negsuc n)))
