-- ===== src/Ints/Sample.antt =====
-- Zarith's interface, met by the integers themselves.
use mathlib.Core.Path.{◌≡◌}
use native.Mathlib.Nat.{div-add-mod, mod-lt, zero-lt-suc}
use Prim.Native.Nat.{◌/◌, ◌%◌, ◌^◌}
use mopsa_ocaml.Prelude.{
  ℕ, zero, suc, ℤ, pos, negsuc, ◌+◌, ◌-◌, ◌*◌, ◌<◌, ◌≢◌, refl, Option, none, some, ltb, arith,
  if◌then◌else◌,
}
use mopsa_ocaml.Prelude.Signed.{
  pos_part, neg_part, ◌+ℤ◌, ◌-ℤ◌, ◌*ℤ◌, compare_ℤ, power, eq_of_parts, *ℤ_parts, +ℤ_parts,
}
use mopsa_ocaml.Stub.Numbers.Divide.{quotient, remainder, minus, negated}
use mopsa_ocaml.Ints.Zarith.{Zarith, Laws}
use mopsa_ocaml.Ints.Bound.Remainder.{size}

-- `n` with the sign of `y`.
abbrev pub signed_like : ℤ → ℕ → ℤ
signed_like (pos b) n = pos n
signed_like (negsuc b) n = negated n

-- The remainder is not negative.
abbrev pub ediv : ℤ → ℤ → ℤ
ediv (pos a) y = signed_like y (a / size y)
ediv (negsuc a) y = minus (signed_like y (a / size y + 1))

abbrev pub erem : ℤ → ℤ → ℤ
erem (pos a) y = pos (a % size y)
erem (negsuc a) y = pos (size y - 1 - a % size y)

abbrev pub shift_left : ℤ → ℤ → ℤ
shift_left x (pos n) = x *ℤ pos (2 ^ n)
shift_left x (negsuc n) = x

abbrev pub shift_right : ℤ → ℤ → ℤ
shift_right x (pos n) = ediv x (pos (2 ^ n))
shift_right x (negsuc n) = x

abbrev pub to_int : ℤ → Option ℤ
to_int (pos n) = if ltb n 4611686018427387904 then some (pos n) else none
to_int (negsuc n) = if ltb n 4611686018427387904 then some (negsuc n) else none

abbrev pub to_power : ℤ → ℤ → ℤ
to_power x (pos n) = power x n
to_power x (negsuc n) = x

instance abbrev pub ints : Zarith
ints = record {
  Z = ℤ;
  zero = pos 0;
  one = pos 1;
  minus_one = negsuc 0;
  compare = compare_ℤ;
  sign = λ x. compare_ℤ x (pos 0);
  neg = minus;
  succ = λ x. x +ℤ pos 1;
  pred = λ x. x -ℤ pos 1;
  add = ◌+ℤ◌;
  sub = ◌-ℤ◌;
  mul = ◌*ℤ◌;
  div = quotient;
  rem = remainder;
  ediv = ediv;
  erem = erem;
  pow = to_power;
  shift_left = shift_left;
  shift_right = shift_right;
  to_int = to_int;
}

combine :
    (x y q : ℤ) (r : ℕ)
    → pos_part x + (pos_part y * neg_part q + neg_part y * pos_part q)
      ≡ neg_part x + (pos_part y * pos_part q + neg_part y * neg_part q) + r
    → x ≡ (y *ℤ q) +ℤ pos r
combine x y q r e =
    eq_of_parts x ((y *ℤ q) +ℤ pos r) (omega (arith, *ℤ_parts y q, +ℤ_parts (y *ℤ q) (pos r)))

pos_negated : (n : ℕ) → pos_part (negated n) ≡ 0
pos_negated zero = refl
pos_negated (suc n) = refl

neg_negated : (n : ℕ) → neg_part (negated n) ≡ n
neg_negated zero = refl
neg_negated (suc n) = refl

minus_negated : (n : ℕ) → minus (negated n) ≡ pos n
minus_negated zero = refl
minus_negated (suc n) = refl

pub ediv-erem : (x y : ℤ) → y ≢ pos 0 → x ≡ (y *ℤ ediv x y) +ℤ erem x y
ediv-erem (pos a) (pos zero) h = absurd (h refl)
ediv-erem (negsuc a) (pos zero) h = absurd (h refl)
ediv-erem (pos a) (pos (suc b)) h =
    combine (pos a) (pos (suc b)) (pos (a / suc b)) (a % suc b)
      (omega (arith, div-add-mod a (suc b)))
ediv-erem (pos a) (negsuc b) h =
    combine (pos a) (negsuc b) (negated (a / suc b)) (a % suc b)
      (rw (pos_negated (a / suc b), neg_negated (a / suc b)) (omega (arith, div-add-mod a (suc b))))
ediv-erem (negsuc a) (pos (suc b)) h =
    combine (negsuc a) (pos (suc b)) (negated (a / suc b + 1)) (suc b - 1 - a % suc b) (
      rw (pos_negated (a / suc b + 1), neg_negated (a / suc b + 1))
        (omega (arith, div-add-mod a (suc b), mod-lt a (zero-lt-suc b))))
ediv-erem (negsuc a) (negsuc b) h = rw (minus_negated (a / suc b + 1)) (
    combine (negsuc a) (negsuc b) (pos (a / suc b + 1)) (suc b - 1 - a % suc b)
      (omega (arith, div-add-mod a (suc b), mod-lt a (zero-lt-suc b))))

pub erem_small :
    (x y : ℤ)
    → y ≢ pos 0
    → (neg_part (erem x y) ≡ 0) × (pos_part (erem x y) < pos_part y + neg_part y)
erem_small (pos a) (pos zero) h = absurd (h refl)
erem_small (negsuc a) (pos zero) h = absurd (h refl)
erem_small (pos a) (pos (suc b)) h = (refl, omega (arith, mod-lt a (zero-lt-suc b)))
erem_small (pos a) (negsuc b) h = (refl, omega (arith, mod-lt a (zero-lt-suc b)))
erem_small (negsuc a) (pos (suc b)) h = (refl, omega arith)
erem_small (negsuc a) (negsuc b) h = (refl, omega arith)

pub to_int_small : (x : ℤ) (n : ℕ) → x ≡ pos n → n < 4611686018427387904 → to_int x ≡ some (pos n)
to_int_small x n e low = rw e (ground arith)

instance abbrev pub ints_laws : Laws ints
ints_laws = record {
  value = λ x. x;
  value_zero = refl;
  value_one = refl;
  value_minus_one = refl;
  compare_law = λ x y. refl;
  sign_law = λ x. refl;
  neg_law = λ x. refl;
  succ_law = λ x. refl;
  pred_law = λ x. refl;
  add_law = λ x y. refl;
  sub_law = λ x y. refl;
  mul_law = λ x y. refl;
  div_law = λ x y h. refl;
  rem_law = λ x y h. refl;
  ediv_law = ediv-erem;
  erem_law = erem_small;
  pow_law = λ x n. refl;
  to_int_law = to_int_small;
}
