-- ===== src/Float/Tiny/Check.antt =====
-- Laws of the format in miniature, read off a table of all its values.
use mopsa_ocaml.Prelude.{◌≡◌, Bool, true, false, ◌&&◌, arith}
use mopsa_ocaml.Float.Fpu.{Mode, near, up, down, toward_zero}
use mopsa_ocaml.Float.Tiny.Table.{none, one, all, Tiny, nan, num}

all_values : (Tiny → Bool) → Bool
all_values p =
    p nan
    && p (num true all)
    && p (num true one)
    && p (num true none)
    && p (num false none)
    && p (num false one)
    && p (num false all)

all_modes : (Mode → Bool) → Bool
all_modes p = p near && p up && p down && p toward_zero

infixr 20 ◌⇒◌
abbrev pub ◌⇒◌ : Bool → Bool → Bool
true ⇒ b = b
false ⇒ b = true

apply_value : (p : Tiny → Bool) → all_values p ≡ true → (t : Tiny) → p t ≡ true
unfolding all_values
apply_value p h nan = ground arith
apply_value p h (num true all) = ground arith
apply_value p h (num true one) = ground arith
apply_value p h (num true none) = ground arith
apply_value p h (num false all) = ground arith
apply_value p h (num false one) = ground arith
apply_value p h (num false none) = ground arith

apply_mode : (p : Mode → Bool) → all_modes p ≡ true → (m : Mode) → p m ≡ true
unfolding all_modes
apply_mode p h near = ground arith
apply_mode p h up = ground arith
apply_mode p h down = ground arith
apply_mode p h toward_zero = ground arith

pub of_imp : (a b : Bool) → (a ⇒ b) ≡ true → a ≡ true → b ≡ true
of_imp a b h p = ground arith

-- A test of four values and a mode, over all of them.
unfoldable pub holds : (Mode → Tiny → Tiny → Tiny → Tiny → Bool) → Bool
unfolding all_values all_modes
holds p = all_modes λ m. all_values λ a. all_values λ b. all_values λ x. all_values λ y. p m a b x y

pub holds-apply :
    (p : Mode → Tiny → Tiny → Tiny → Tiny → Bool)
    → holds p ≡ true
    → (m : Mode) (a b x y : Tiny) → p m a b x y ≡ true
unfolding holds
holds-apply p h m a b x y = at_y
  where
    over_y : Mode → Tiny → Tiny → Tiny → Bool
    over_y n v w u = all_values λ y'. p n v w u y'

    over_x : Mode → Tiny → Tiny → Bool
    over_x n v w = all_values λ u. over_y n v w u

    over_b : Mode → Tiny → Bool
    over_b n v = all_values λ w. over_x n v w

    at_a : over_b m a ≡ true
    at_a = apply_value (over_b m) (apply_mode (λ n. all_values (over_b n)) h m) a

    at_x : over_y m a b x ≡ true
    at_x = apply_value (over_y m a b) (apply_value (over_x m a) at_a b) x

    at_y : p m a b x y ≡ true
    at_y = apply_value (p m a b x) at_x y
