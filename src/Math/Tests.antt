-- ===== src/Math/Tests.antt =====
-- A float type in miniature that obeys the laws: the levels from 0, the negative infinity, over 2,
-- zero, to 4 and above, the positive infinity; and NaN.
use mathlib.Core.Path.{◌≡◌}
use mopsa_ocaml.Prelude.{
  ℕ, zero, suc, ℤ, pos, negsuc, refl, ◌+◌, ◌-◌, ◌≢◌, ◌↔◌, ◌⊎◌, Bool, false, leb, ltb, if◌then◌else◌,
  ◌==◌, arith,
}
use mopsa_ocaml.Math.Floats.{Floats, Infinite, Class, finite, infinite, nan, Le, Lt, Eq, AtMost}
use mopsa_ocaml.Math.Laws.{IsOrdered, IsSigned}
use mopsa_ocaml.Math.Classify.{isinf, isnan, fpclassify}
use mopsa_ocaml.Math.Classify
use mopsa_ocaml.Math.Facts.{fpclassify-isnan}

data Small : Type 0 where
  bad : Small
  level : ℕ → Small

abbrev class_of : Small → Class
class_of bad = nan
class_of (level n) = if n == 0 then infinite else if ltb n 4 then finite else infinite

abbrev on_levels : (ℕ → ℕ → Bool) → Small → Small → Bool
on_levels f (level a) (level b) = f a b
on_levels f _ _ = false

abbrev shifted : (ℕ → ℕ → ℕ) → Small → Small → Small
shifted f (level a) (level b) = level (f a b)
shifted f _ _ = bad

abbrev opposite : Small → Small
opposite (level n) = level (4 - n)
opposite bad = bad

abbrev of_integer : ℤ → Small
of_integer (pos zero) = level 2
of_integer (pos (suc n)) = level 3
of_integer (negsuc n) = level 1

abbrev small : Floats
small = record {
  value = Small;
  wide = Small;
  widen = λ a. a;
  class = class_of;
  le = on_levels leb;
  lt = on_levels ltb;
  eq = on_levels (λ a b. a == b);
  plus = shifted (λ a b. a + b - 2);
  minus = shifted (λ a b. a + 2 - b);
  negate = opposite;
  num = of_integer;
  half = level 3;
  pi = level 3;
  half_pi = level 3;
}

small-le_trans : (a b c : Small) → Le small a b → Le small b c → Le small a c
small-le_trans bad b c h k = absurd (ground arith)
small-le_trans (level a) bad c h k = absurd (ground arith)
small-le_trans (level a) (level b) bad h k = absurd (ground arith)
small-le_trans (level a) (level b) (level c) h k = ground arith

small-eq_trans : (a b c : Small) → Eq small a b → Eq small b c → Eq small a c
small-eq_trans bad b c h k = absurd (ground arith)
small-eq_trans (level a) bad c h k = absurd (ground arith)
small-eq_trans (level a) (level b) bad h k = absurd (ground arith)
small-eq_trans (level a) (level b) (level c) h k = ground arith

small-eq_le : (a b : Small) → Eq small a b → Le small a b
small-eq_le bad b h = absurd (ground arith)
small-eq_le (level a) bad h = absurd (ground arith)
small-eq_le (level a) (level b) h = ground arith

small-eq_sym : (a b : Small) → Eq small a b → Eq small b a
small-eq_sym bad b h = absurd (ground arith)
small-eq_sym (level a) bad h = absurd (ground arith)
small-eq_sym (level a) (level b) h = ground arith

small-lt_le : (a b : Small) → Lt small a b → Le small a b
small-lt_le bad b h = absurd (ground arith)
small-lt_le (level a) bad h = absurd (ground arith)
small-lt_le (level a) (level b) h = ground arith

small-le_total : (a b : Small) → class_of a ≢ nan → class_of b ≢ nan → Le small a b ⊎ Le small b a
small-le_total bad b h k = absurd (h refl)
small-le_total (level a) bad h k = absurd (k refl)
small-le_total (level a) (level b) h k = ground arith

small-IsOrdered : IsOrdered small
small-IsOrdered = record {
  le_total = λ x y h k. small-le_total x y (ground (arith, h)) (ground (arith, k));
  le_trans = small-le_trans;
  eq_le = small-eq_le;
  eq_sym = small-eq_sym;
  eq_trans = small-eq_trans;
  lt_le = small-lt_le;
}

small-eq_zero : (a : Small) → Le small (level 2) a → Le small a (level 2) → Eq small a (level 2)
small-eq_zero bad h k = absurd (ground arith)
small-eq_zero (level a) h k = ground arith

small-apart : (a : Small) → Lt small (level 2) a → ¬ Eq small a (opposite a)
small-apart bad h k = absurd (ground arith)
small-apart (level a) h k = ground arith

small-IsSigned : IsSigned small
small-IsSigned = record {
  finite_sign = λ x h. small-le_total (level 2) x (ground arith) (ground (arith, h));
  infinite_sign = λ x h. small-le_total (level 2) x (ground arith) (ground (arith, h));
  eq_zero = small-eq_zero;
  apart = small-apart;
}

small-infinite : (x : Small) → Infinite small x → Le small (level 2) x ⊎ Le small x (level 2)
small-infinite x h = small-le_total (level 2) x (ground arith) (ground (arith, h))

fpclassify-isnan_example :
    ((pos 0 ≢ pos 0) ↔ (pos 3 ≡ pos 0))
    × ((pos 0 ≢ pos 0) ↔ (pos 3 ≡ pos 1))
    × ((pos 1 ≢ pos 0) ↔ AtMost (pos 3) (pos 3))
unfolding fpclassify isnan isinf Classify.finite
fpclassify-isnan_example =
    fpclassify-isnan small (level 2) (pos 3) (pos 0) (pos 0) (pos 1) small-infinite
      (
        (omega arith, omega arith),
        ((λ h. ground (arith, h)), (λ h. ground (arith, h)), (λ h. refl), λ h. absurd (h.1 refl)),
      )
      (ground arith) (ground arith) (ground arith)
