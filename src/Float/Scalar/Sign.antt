-- ===== src/Float/Scalar/Sign.antt =====
-- The signs of parsed numbers and of converted integers in utils/itvUtils/floats_round.c.
use mopsa_ocaml.Prelude.{◌≡◌, refl, Bool, true, false, not, ◌∷◌}
use mopsa_ocaml.Prelude.Integer.{int64_min}
use mopsa_ocaml.Float.Fpu.{Format, Casts, Mode, up, down, ◌≼◌}
use mopsa_ocaml.Float.Laws.{IsOrdered, IsExact}
use mopsa_ocaml.Float.Math.{Math, Runtime, IsSigned}
use mopsa_ocaml.Float.Scalar.Integers.{ml_of_int64_dbl_down}
use mopsa_ocaml.Float.Scalar.Parse.{
  Text, starts, skip_space, skip_plus, parse_string, ml_of_string_dbl_up, ml_of_string_sgl_up,
  ml_of_string_sgl_down,
}

module _ {D : Type 0} ⦃d : Format D⦄ (h : Math D) where
  open d use {nought, neg}

  -- For a text that does not start with '-': parse_string on '-' and the text, in either direction,
  -- gives the negation of what it gives in the other direction on '+' and the text.
  pub parse_string-neg :
      (upward : Bool) (s : Text) (entry : Mode)
      → starts 45 s ≡ false
      → (parse_string h upward (45 ∷ s) entry).0
        ≡ neg (parse_string h (not upward) (43 ∷ s) entry).0
  unfolding parse_string skip_plus skip_space
  parse_string-neg true s entry plain = rw plain refl
  parse_string-neg false s entry plain = rw plain refl

  -- For a float format that obeys the laws of order, in which negative integers convert to floats
  -- that are not above zero, and with a 64-bit negation that wraps: ml_of_int64_dbl_down gives the
  -- least 64-bit integer a float that is at least zero.
  ml_of_int64_dbl_down_least :
      {V : Type 0} (order : IsOrdered D) (signed : IsSigned h) (ocaml : Runtime V) (v : V)
      (entry : Mode)
      → ocaml.int64_val v ≡ int64_min
      → nought ≼ (ml_of_int64_dbl_down h ocaml v entry).0
  unfolding ml_of_int64_dbl_down
  ml_of_int64_dbl_down_least order signed ocaml v entry e =
      rw e
        (order.le_trans _ _ _ order.neg_nought.1 (order.neg_anti _ _ (signed.of_int_nonpos up _)))

module _ {D S : Type 0} ⦃d : Format D⦄ ⦃s : Format S⦄ (c : Casts D S) (h : Math D) where
  -- If ml_of_string_dbl_up gives a number that is exact in single precision, then
  -- ml_of_string_sgl_down gives that number too, the one that ml_of_string_sgl_up gives.
  ml_of_string_sgl_down-up :
      (exact : IsExact c) (text : Text) (v : S) (entry : Mode)
      → (ml_of_string_dbl_up h text entry).0 ≡ c.of_sgl v
      → ((ml_of_string_sgl_down c h text entry).0 ≡ c.of_sgl v)
        × ((ml_of_string_sgl_up c h text entry).0 ≡ c.of_sgl v)
  unfolding ml_of_string_dbl_up ml_of_string_sgl_down ml_of_string_sgl_up
  ml_of_string_sgl_down-up exact text v entry e =
      (rw (e, exact.to_sgl-of_sgl down v) refl, rw (e, exact.to_sgl-of_sgl up v) refl)
