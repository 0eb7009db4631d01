-- ===== src/Float/Scalar/Tests.antt =====
-- Runs and instances of the operations on floats of utils/itvUtils/floats_round.c, on the float format
-- in miniature.
use mopsa_ocaml.Prelude.{◌≡◌, refl, true, not, [], ◌∷◌}
use mopsa_ocaml.Float.Fpu.{near}
use mopsa_ocaml.Float.Tiny.{one, num, tiny, tiny_math}
use mopsa_ocaml.Float.Scalar.Parse.{
  Text, parse_string, parse_unsigned, parse_digits, push_digit, parse_point, parse_exponent,
  skip_plus, skip_space, ml_of_string_dbl_up,
}
use mopsa_ocaml.Float.Scalar.Sign.{parse_string-neg}

-- "-2" and "+2".
parse_string-neg_example :
    (parse_string tiny_math true (45 ∷ 50 ∷ []) near).0
    ≡ tiny.neg (parse_string tiny_math (not true) (43 ∷ 50 ∷ []) near).0
parse_string-neg_example = parse_string-neg tiny_math true (50 ∷ []) near refl

-- "-2" rounds up to -1, through a mantissa that is rounded down.
minus_two_up : (parse_string tiny_math true (45 ∷ 50 ∷ []) near).0 ≡ num true one
unfolding parse_string parse_unsigned parse_digits push_digit parse_point parse_exponent skip_plus
    skip_space
minus_two_up = refl

-- "-2".
abbrev minus_two : Text
minus_two = 45 ∷ 50 ∷ []

minus_two_dbl_up : (ml_of_string_dbl_up tiny_math minus_two near).0 ≡ num true one
unfolding ml_of_string_dbl_up
minus_two_dbl_up = minus_two_up
