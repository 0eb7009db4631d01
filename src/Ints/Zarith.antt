-- ===== src/Ints/Zarith.antt =====
-- What src's integer domains use of Zarith, the library of big integers: `Z.t` and its operations. An
-- OCaml int is an integer here, and of the ints -1, 0 and 1 that a comparison returns only the sign is kept.
use mathlib.Core.Path.{◌≡◌}
use Prim.Native.Nat.{Ordering}
use mopsa_ocaml.Prelude.{ℕ, ℤ, pos, ◌≢◌, ◌+◌, ◌<◌, Option, some}
use mopsa_ocaml.Prelude.Signed.{pos_part, neg_part, ◌+ℤ◌, ◌-ℤ◌, ◌*ℤ◌, compare_ℤ, power}
use mopsa_ocaml.Stub.Numbers.Divide.{quotient, remainder, minus}

-- `to_int` gives `none` where Z.to_int raises Overflow.
pub record Zarith : Type 1 where
  pub Z : Type 0
  pub zero : Z
  pub one : Z
  pub minus_one : Z
  pub compare : Z → Z → Ordering
  pub sign : Z → Ordering
  pub neg : Z → Z
  pub succ : Z → Z
  pub pred : Z → Z
  pub add : Z → Z → Z
  pub sub : Z → Z → Z
  pub mul : Z → Z → Z
  pub div : Z → Z → Z
  pub rem : Z → Z → Z
  pub ediv : Z → Z → Z
  pub erem : Z → Z → Z
  pub pow : Z → ℤ → Z
  pub shift_left : Z → ℤ → Z
  pub shift_right : Z → ℤ → Z
  pub to_int : Z → Option ℤ

-- The operations are those of the integers: `div` rounds to zero, `rem` has the sign of its first
-- argument, and `erem` is not negative.
pub record Laws (A : Zarith) : Type 0 where
  pub value : A.Z → ℤ
  pub value_zero : value A.zero ≡ pos 0
  pub value_one : value A.one ≡ pos 1
  pub value_minus_one : value A.minus_one ≡ minus (pos 1)
  pub compare_law : (x y : A.Z) → A.compare x y ≡ compare_ℤ (value x) (value y)
  pub sign_law : (x : A.Z) → A.sign x ≡ compare_ℤ (value x) (pos 0)
  pub neg_law : (x : A.Z) → value (A.neg x) ≡ minus (value x)
  pub succ_law : (x : A.Z) → value (A.succ x) ≡ value x +ℤ pos 1
  pub pred_law : (x : A.Z) → value (A.pred x) ≡ value x -ℤ pos 1
  pub add_law : (x y : A.Z) → value (A.add x y) ≡ value x +ℤ value y
  pub sub_law : (x y : A.Z) → value (A.sub x y) ≡ value x -ℤ value y
  pub mul_law : (x y : A.Z) → value (A.mul x y) ≡ value x *ℤ value y
  pub div_law : (x y : A.Z) → value y ≢ pos 0 → value (A.div x y) ≡ quotient (value x) (value y)
  pub rem_law : (x y : A.Z) → value y ≢ pos 0 → value (A.rem x y) ≡ remainder (value x) (value y)
  pub ediv_law :
      (x y : A.Z)
      → value y ≢ pos 0
      → value x ≡ (value y *ℤ value (A.ediv x y)) +ℤ value (A.erem x y)
  pub erem_law :
      (x y : A.Z)
      → value y ≢ pos 0
      → (neg_part (value (A.erem x y)) ≡ 0)
        × (pos_part (value (A.erem x y)) < pos_part (value y) + neg_part (value y))
  pub pow_law : (x : A.Z) (n : ℕ) → value (A.pow x (pos n)) ≡ power (value x) n
  pub to_int_law :
      (x : A.Z) (n : ℕ) → value x ≡ pos n → n < 4611686018427387904 → A.to_int x ≡ some (pos n)
