-- ===== src/Float/Tiny/Arithmetic.antt =====
-- The laws of addition, multiplication and division hold in the format in miniature.
use mopsa_ocaml.Prelude.{refl, not, arith}
use mopsa_ocaml.Float.Fpu.{Mode, Casts, ◌≼◌, IsNum}
use mopsa_ocaml.Float.Laws.{IsRounded, IsOrdered, IsAddition, IsMultiplication, IsDivision, IsExact}
use mopsa_ocaml.Float.Tiny.Table.{Tiny, tiny}
use mopsa_ocaml.Float.Tiny.Check.{holds, holds-apply, ◌⇒◌}
open tiny use {le, is_nan, add, neg}

pub Tiny-IsOrdered : IsOrdered Tiny
Tiny-IsOrdered = record {
  le_refl = λ a p. ground arith;
  le_num = λ a b p. ground arith;
  le_trans = λ a b c p q. ground arith;
  le_total = λ a b p q. ground arith;
  minf_le = λ a p. ground arith;
  le_inf = λ a p. ground arith;
  zero_le = λ a p. ground arith;
  zero_of_le = λ a p q. ground arith;
  inf_of_le = λ a b p q r. ground arith;
  nought_num = refl;
  neg_num = λ a p. ground arith;
  neg-neg = λ a p. ground arith;
  neg_anti = λ a b p. ground arith;
  neg_nought = ground arith;
  neg_zero = λ a p. ground arith;
  fmin_le = λ a b p q. ground arith;
  le_fmax = λ a b p q. ground arith;
}

add-IsRounded : IsRounded add
add-IsRounded = record {
  same_num = λ m n a b p. ground arith;
  down-le = λ m a b p. ground arith;
  le-up = λ m a b p. ground arith;
}

add_mono :
    (m : Mode) (a a' b b' : Tiny)
    → a ≼ a'
    → b ≼ b'
    → IsNum (add m a b)
    → IsNum (add m a' b')
    → add m a b ≼ add m a' b'
unfolding holds
add_mono m a a' b b' p q r t = ground (
  arith,
  holds-apply
      (λ m a a' b b'.
        le a a'
        ⇒ le b b'
        ⇒ not (is_nan (add m a b))
        ⇒ not (is_nan (add m a' b'))
        ⇒ le (add m a b) (add m a' b'))
      refl m a a' b b',
)

pub Tiny-IsAddition : IsAddition Tiny
Tiny-IsAddition = record {
  add_rounded = add-IsRounded;
  add_mono = add_mono;
  neg-sub = λ a b p. ground arith;
  sub_rounded = record {
    same_num = λ m n a b p. ground arith;
    down-le = λ m a b p. ground arith;
    le-up = λ m a b p. ground arith;
  };
  sub_mono = λ m a a' b b' p q r t. add_mono m a a' (neg b) (neg b') p (ground arith) r t;
  neg-add = λ a b p. ground arith;
}

pub Tiny-IsMultiplication : IsMultiplication Tiny
Tiny-IsMultiplication = record {
  mul_rounded = record {
    same_num = λ m n a b p. ground arith;
    down-le = λ m a b p. ground arith;
    le-up = λ m a b p. ground arith;
  };
  mul_num = λ m a b p q r t. ground arith;
  mul_comm = λ m a b p. ground arith;
  mul_mono = λ m a a' b p q r t. ground arith;
  mul_anti = λ m a a' b p q r t. ground arith;
  mul_nonneg = λ m a b p q r. ground arith;
  mul_nonpos = λ m a b p q r. ground arith;
  mul_nonpos_nonpos = λ m a b p q r. ground arith;
  mul_zero = λ m a b p q. ground arith;
  neg-mul = λ a b p. ground arith;
}

pub Tiny-IsDivision : IsDivision Tiny
Tiny-IsDivision = record {
  div_rounded = record {
    same_num = λ m n a b p. ground arith;
    down-le = λ m a b p. ground arith;
    le-up = λ m a b p. ground arith;
  };
  div_num = λ m a b p q r t. ground arith;
  div_mono = λ m a a' b p q r t. ground arith;
  div_anti = λ m a b b' p q r t u. ground arith;
  div_anti_nonpos = λ m a b b' p q r t u. ground arith;
  div_nonneg = λ m a b p q r. ground arith;
  div_nonpos = λ m a b p q r. ground arith;
  div_zero = λ m a b p q. ground arith;
  neg-div = λ a b p. ground arith;
}

-- Both formats in miniature, with nothing to convert.
abbrev pub same_format : Casts Tiny Tiny
same_format = record { to_sgl = λ m v. v; of_sgl = λ v. v }

pub same_format-IsExact : IsExact same_format
same_format-IsExact = record {
  to_sgl-of_sgl = λ m v. refl;
  of_sgl_mono = λ v w p. p;
  of_sgl-neg = λ v p. refl;
  of_sgl_num = λ v p. p;
  num_of_sgl = λ v p. p;
}
