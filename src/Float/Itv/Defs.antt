-- ===== src/Float/Itv/Defs.antt =====
-- Float intervals and the stores of utils/itvUtils/floats_round.c.
use mopsa_ocaml.Prelude.{if◌then◌else◌}
use mopsa_ocaml.Float.Fpu.{Format, Casts, Mode, ◌≼◌, M, pure, in_mode}

-- The struct of two unboxed doubles.
pub record Itv (F : Type 0) : Type 0 where
  pub lo : F
  pub hi : F

abbrev pub itv : {F : Type 0} → F → F → Itv F
itv l h = record { lo = l; hi = h }

-- The four products or quotients of the bounds.
pub record Corners (F : Type 0) : Type 0 where
  pub ll : F
  pub lh : F
  pub hl : F
  pub hh : F

-- `double ll = MUL(l1,l2), lh = MUL(l1,h2), hl = MUL(h1,l2), hh = MUL(h1,h2);`
abbrev pub corners : {F : Type 0} → (Mode → F → F → F) → F → F → F → F → M (Corners F)
corners op l1 h1 l2 h2 m =
    (record { ll = op m l1 l2; lh = op m l1 h2; hl = op m h1 l2; hh = op m h1 h2 }, m)

module _ {F : Type 0} ⦃f : Format F⦄ where
  open f use {is_nan, inf, minf, fmin, fmax}

  -- set_l: a NaN bound becomes -infinity.
  unfoldable pub set_l : F → F
  set_l v = if is_nan v then minf else v

  -- set_u: a NaN bound becomes +infinity.
  unfoldable pub set_u : F → F
  set_u v = if is_nan v then inf else v

  -- `set_l(r, l); set_u(r, u);`
  abbrev pub store : F → F → M (Itv F)
  store l u = pure (record { lo = set_l l; hi = set_u u })

  -- `fmin(fmin(ll,hh), fmin(lh,hl))`
  unfoldable pub least : Corners F → F
  least c = fmin (fmin c.ll c.hh) (fmin c.lh c.hl)

  -- `fmax(fmax(ll,hh), fmax(lh,hl))`
  unfoldable pub greatest : Corners F → F
  greatest c = fmax (fmax c.ll c.hh) (fmax c.lh c.hl)

  -- The floats of an interval.
  abbrev pub Contains : Itv F → F → Type 0
  Contains i x = (i.lo ≼ x) × (x ≼ i.hi)

-- get_sl and get_su: a bound read as a `float`, in the mode in force.
module _ {D S : Type 0} (c : Casts D S) where
  abbrev pub get_sl : Itv D → M S
  get_sl a = in_mode c.to_sgl a.lo

  abbrev pub get_su : Itv D → M S
  get_su a = in_mode c.to_sgl a.hi

  -- The conversion of four `float` products to `double`.
  abbrev pub widen : Corners S → Corners D
  widen k = record {
    ll = c.of_sgl k.ll;
    lh = c.of_sgl k.lh;
    hl = c.of_sgl k.hl;
    hh = c.of_sgl k.hh;
  }

  -- An interval of `float` numbers, as the code is given it.
  abbrev pub widen_itv : Itv S → Itv D
  widen_itv i = record { lo = c.of_sgl i.lo; hi = c.of_sgl i.hi }
