-- ===== src/Float/Tiny/Table.antt =====
-- The values of the format in miniature, its operations, and proof by evaluation over all values.
use mopsa_ocaml.Prelude.{ℕ, Bool, true, false, not, leb, if◌then◌else◌}
use mopsa_ocaml.Float.Fpu.{Mode, near, up, down, toward_zero, Format}

pub data Size : Type 0 where
  none one all : Size

-- `true` is the minus sign.
pub data Tiny : Type 0 where
  nan : Tiny
  num : Bool → Size → Tiny

-- The sign of a product or quotient; true also where two signs differ.
abbrev xor : Bool → Bool → Bool
xor true t = not t
xor false t = t

abbrev rank : Bool → Size → ℕ
rank true all = 0
rank true one = 1
rank s none = 2
rank false one = 3
rank false all = 4

abbrev le : Tiny → Tiny → Bool
le (num s a) (num t b) = leb (rank s a) (rank t b)
le _ _ = false

abbrev neg : Tiny → Tiny
neg nan = nan
neg (num s a) = num (not s) a

-- The sum of two ones, or of their negations.
abbrev overflow : Mode → Bool → Size
overflow near s = all
overflow up s = if s then one else all
overflow down s = if s then all else one
overflow toward_zero s = one

abbrev exact_zero : Mode → Tiny
exact_zero down = num true none
exact_zero _ = num false none

abbrev add : Mode → Tiny → Tiny → Tiny
add m nan b = nan
add m (num s a) nan = nan
add m (num s all) (num t all) = if xor s t then nan else num s all
add m (num s all) (num t b) = num s all
add m (num s a) (num t all) = num t all
add m (num s one) (num t one) = if xor s t then exact_zero m else num s (overflow m s)
add m (num s one) (num t none) = num s one
add m (num s none) (num t one) = num t one
add m (num s none) (num t none) = if xor s t then exact_zero m else num s none

abbrev mul : Mode → Tiny → Tiny → Tiny
mul m (num s none) (num t all) = nan
mul m (num s all) (num t none) = nan
mul m (num s none) (num t b) = num (xor s t) none
mul m (num s a) (num t none) = num (xor s t) none
mul m (num s one) (num t one) = num (xor s t) one
mul m (num s a) (num t b) = num (xor s t) all
mul m _ _ = nan

abbrev div : Mode → Tiny → Tiny → Tiny
div m (num s none) (num t none) = nan
div m (num s all) (num t all) = nan
div m (num s none) (num t b) = num (xor s t) none
div m (num s a) (num t all) = num (xor s t) none
div m (num s one) (num t one) = num (xor s t) one
div m (num s a) (num t b) = num (xor s t) all
div m _ _ = nan

abbrev is_nan : Tiny → Bool
is_nan nan = true
is_nan _ = false

abbrev is_inf : Tiny → Bool
is_inf (num s all) = true
is_inf _ = false

abbrev is_zero : Tiny → Bool
is_zero (num s none) = true
is_zero _ = false

abbrev sign_bit : Tiny → Bool
sign_bit (num s a) = s
sign_bit nan = false

abbrev pick : Tiny → Tiny → Bool → Tiny
pick nan b first = b
pick a nan first = a
pick a b first = if first then a else b

instance abbrev pub tiny : Format Tiny
tiny = record {
  le = le;
  is_nan = is_nan;
  is_inf = is_inf;
  is_zero = is_zero;
  sign_bit = sign_bit;
  nought = num false none;
  inf = num false all;
  minf = num true all;
  neg = neg;
  add = add;
  sub = λ m a b. add m a (neg b);
  mul = mul;
  div = div;
  fmin = λ a b. pick a b (le a b);
  fmax = λ a b. pick a b (le b a);
}
