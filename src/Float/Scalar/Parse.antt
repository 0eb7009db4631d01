-- ===== src/Float/Scalar/Parse.antt =====
-- parse_string and the ml_of_string_* functions of utils/itvUtils/floats_round.c. A C string is
-- the list of its characters before the terminator.
use mopsa_ocaml.Prelude.{
  ℕ, ℤ, pos, negsuc, ◌+◌, ◌-◌, ◌*◌, Bool, true, false, not, ◌&&◌, ◌||◌, List, [], ◌∷◌, leb, ltb,
  ◌==◌, if◌then◌else◌,
}
use mopsa_ocaml.Float.Fpu.{
  Format, Casts, Mode, up, down, M, pure, ◌>>=◌, ◌>>◌, round, in_mode, fadd, fmul,
}
use mopsa_ocaml.Float.Math.{Math}
use Prim.Native.Nat.{◌%◌}

abbrev pub Text : Type 0
Text = List ℕ

-- SKIP_SPACE.
unfoldable pub skip_space : Text → Text
skip_space [] = []
skip_space (c ∷ s) = if c == 32 then skip_space s else c ∷ s

-- `*s == c`, for a character that is not the terminator.
abbrev pub starts : ℕ → Text → Bool
starts c [] = false
starts c (a ∷ s) = a == c

-- `s++`.
abbrev pub tail : Text → Text
tail [] = []
tail (c ∷ s) = s

-- `if (*s == c) s++`.
abbrev pub skip : ℕ → Text → Text
skip c s = if starts c s then tail s else s

abbrev pub is_digit : ℕ → Bool
is_digit c = leb 48 c && leb c 57

-- An `int` as its residue modulo 2^32; where C leaves an overflow undefined, it wraps.
abbrev pub wrap : ℕ → ℕ
wrap n = n % 4294967296

abbrev pub to_signed : ℕ → ℤ
to_signed n = if ltb n 2147483648 then pos n else negsuc (4294967295 - n)

-- `exponent--`.
abbrev pub decrement : ℕ → ℕ
decrement e = wrap (e + 4294967295)

-- The loop over the digits of the exponent.
unfoldable pub parse_exp : ℕ → Text → ℕ
parse_exp exp [] = exp
parse_exp exp (c ∷ s) =
    let rest = parse_exp (wrap (exp * 10 + (c - 48))) s in if is_digit c then rest else exp

-- `exponent += expsign * exp`, with the exponent read where there is one.
unfoldable pub parse_exponent : ℕ → Text → ℕ
parse_exponent e s =
    if starts 101 s || starts 69 s
    then (let t = skip_space (tail s) in
        let n = parse_exp 0 (skip_space (skip 45 t)) in
        if starts 45 t then wrap (e + (4294967296 - n)) else wrap (e + n))
    else e

module _ {D : Type 0} ⦃d : Format D⦄ (h : Math D) where
  open d use {nought, neg}
  open h use {of_int, pow10}

  -- `mantissa * 10 + (*s - '0')`.
  unfoldable pub push_digit : D → ℕ → M D
  push_digit mantissa c = do
    fadd (← fmul mantissa (← in_mode of_int (pos 10))) (← in_mode of_int (pos (c - 48)))

  -- The loop over the digits of the integer part: the mantissa, and what is left of the string.
  unfoldable pub parse_digits : D → Text → M (D × Text)
  parse_digits mantissa [] m = ((mantissa, []), m)
  parse_digits mantissa (c ∷ s) m =
      let rest = parse_digits (push_digit mantissa c m).0 s m in
      if is_digit c then rest else ((mantissa, c ∷ s), m)

  -- The loop over the digits of the fraction, which counts the exponent down.
  unfoldable pub parse_fraction : D → ℕ → Text → M (D × ℕ × Text)
  parse_fraction mantissa exponent [] m = ((mantissa, exponent, []), m)
  parse_fraction mantissa exponent (c ∷ s) m =
      let rest = parse_fraction (push_digit mantissa c m).0 (decrement exponent) s m in
      if is_digit c then rest else ((mantissa, exponent, c ∷ s), m)

  -- `if (*s == '.') { ... }`.
  unfoldable pub parse_point : D → Text → M (D × ℕ × Text)
  parse_point mantissa s =
      if starts 46 s then parse_fraction mantissa 0 (skip_space (tail s)) else pure (mantissa, 0, s)

  -- parse_string after the sign and the choice of the rounding mode: the number without its sign.
  unfoldable pub parse_unsigned : Text → M D
  parse_unsigned s m =
      let digits = (parse_digits nought (skip_space s) m).0 in
      let point = (parse_point digits.0 (skip_space digits.1) m).0 in
      let exponent = parse_exponent point.1 (skip_space point.2) in
      fmul point.0 (pow10 m (to_signed exponent)) m

  -- `skip_space` and then the first '+'.
  unfoldable pub skip_plus : Text → Text
  skip_plus s = skip 43 (skip_space s)

  -- `if (neg) mantissa = -mantissa`.
  abbrev pub apply_sign : Bool → D → D
  apply_sign negative mantissa = if negative then neg mantissa else mantissa

  -- The rounding mode for a number whose sign is known.
  abbrev pub mode_for : Bool → Bool → Mode
  mode_for upward negative = if upward && not negative || not upward && negative then up else down

  unfoldable pub parse_string : Bool → Text → M D
  parse_string upward s = do
    round (mode_for upward (starts 45 (skip_plus s)))
    pure (apply_sign (starts 45 (skip_plus s)) (← parse_unsigned (skip 45 (skip_plus s))))

  unfoldable pub ml_of_string_dbl_up : Text → M D
  ml_of_string_dbl_up s = parse_string true s

  unfoldable pub ml_of_string_dbl_down : Text → M D
  ml_of_string_dbl_down s = parse_string false s

module _ {D S : Type 0} ⦃d : Format D⦄ (c : Casts D S) (h : Math D) where
  open c use {to_sgl, of_sgl}

  unfoldable pub ml_of_string_sgl_up : Text → M D
  ml_of_string_sgl_up s = do f ← parse_string h true s; round up; pure (of_sgl (← in_mode to_sgl f))

  unfoldable pub ml_of_string_sgl_down : Text → M D
  ml_of_string_sgl_down s = do
    f ← parse_string h true s
    round down
    pure (of_sgl (← in_mode to_sgl f))
