-- ===== src/Float/Itv/Bounds.antt =====
-- The stores and the four corners: what bounds what.
use mopsa_ocaml.Prelude.{◌⊎◌, inl, inr, arith}
use mopsa_ocaml.Float.Fpu.{Format, Casts, ◌≼◌, IsNum}
use mopsa_ocaml.Float.Laws.{IsOrdered, IsExact}
use mopsa_ocaml.Float.Itv.Defs.{Corners, set_l, set_u, greatest, widen}

module _ {F : Type 0} ⦃f : Format F⦄ (order : IsOrdered F) where
  open order use {le_num, le_trans, minf_le, le_inf, fmin_le, le_fmax}

  pub set_l-le : (v x : F) → IsNum x → (IsNum v → v ≼ x) → set_l v ≼ x
  unfolding set_l
  set_l-le v x num below = ground (arith, minf_le x)

  pub le-set_u : (v x : F) → IsNum x → (IsNum v → x ≼ v) → x ≼ set_u v
  unfolding set_u
  le-set_u v x num above = ground (arith, le_inf x)

  pub record AreNum (k : Corners F) : Type 0 where
    pub ll_num : IsNum k.ll
    pub lh_num : IsNum k.lh
    pub hl_num : IsNum k.hl
    pub hh_num : IsNum k.hh

  -- A value is below one of the four.
  abbrev pub BelowSome : F → Corners F → Type 0
  BelowSome x k = (x ≼ k.ll) ⊎ (x ≼ k.lh) ⊎ (x ≼ k.hl) ⊎ (x ≼ k.hh)

  pub le-greatest : (x : F) (k : Corners F) → AreNum k → BelowSome x k → x ≼ greatest k
  unfolding greatest
  le-greatest x k num =
      let outer = le_fmax k.ll k.hh num.ll_num num.hh_num in
      let inner = le_fmax k.lh k.hl num.lh_num num.hl_num in
      let both =
        le_fmax (f.fmax k.ll k.hh) (f.fmax k.lh k.hl) (le_num _ _ outer.0).1
          (le_num _ _ inner.0).1 in
      elim [
        | inl h ↦ le_trans _ _ _ h (le_trans _ _ _ outer.0 both.0)
        | inr (inl h) ↦ le_trans _ _ _ h (le_trans _ _ _ inner.0 both.1)
        | inr (inr (inl h)) ↦ le_trans _ _ _ h (le_trans _ _ _ inner.1 both.1)
        | inr (inr (inr h)) ↦ le_trans _ _ _ h (le_trans _ _ _ outer.1 both.0)
      ]

  -- A value that is bounded through its first operand and then through its second is below one of
  -- the corners. The two bounds of an interval may come in either order.
  pub BelowSome-of_either :
      (v a b : F) (k : Corners F)
      → (v ≼ a) ⊎ (v ≼ b)
      → (a ≼ k.ll) ⊎ (a ≼ k.lh)
      → (b ≼ k.hl) ⊎ (b ≼ k.hh)
      → BelowSome v k
  BelowSome-of_either v a b k (inl h) (inl p) q = inl (le_trans v a k.ll h p)
  BelowSome-of_either v a b k (inl h) (inr p) q = inr (inl (le_trans v a k.lh h p))
  BelowSome-of_either v a b k (inr h) p (inl q) = inr (inr (inl (le_trans v b k.hl h q)))
  BelowSome-of_either v a b k (inr h) p (inr q) = inr (inr (inr (le_trans v b k.hh h q)))

-- The four values in the other format.
module _ {D S : Type 0} ⦃d : Format D⦄ ⦃s : Format S⦄ (c : Casts D S) (exact : IsExact c)
    (order : IsOrdered D) (order_sgl : IsOrdered S) where
  open exact use {of_sgl_mono, of_sgl_num}

  pub widen-AreNum : (k : Corners S) → AreNum order_sgl k → AreNum order (widen c k)
  widen-AreNum k num = record {
    ll_num = of_sgl_num k.ll num.ll_num;
    lh_num = of_sgl_num k.lh num.lh_num;
    hl_num = of_sgl_num k.hl num.hl_num;
    hh_num = of_sgl_num k.hh num.hh_num;
  }

  widen-BelowSome :
      (v : S) (k : Corners S) → BelowSome order_sgl v k → BelowSome order (c.of_sgl v) (widen c k)
  widen-BelowSome v k (inl h) = inl (of_sgl_mono v k.ll h)
  widen-BelowSome v k (inr (inl h)) = inr (inl (of_sgl_mono v k.lh h))
  widen-BelowSome v k (inr (inr (inl h))) = inr (inr (inl (of_sgl_mono v k.hl h)))
  widen-BelowSome v k (inr (inr (inr h))) = inr (inr (inr (of_sgl_mono v k.hh h)))

  pub le-greatest-widen :
      (v : S) (k : Corners S)
      → AreNum order_sgl k
      → BelowSome order_sgl v k
      → c.of_sgl v ≼ greatest (widen c k)
  le-greatest-widen v k num below =
      le-greatest order (c.of_sgl v) (widen c k) (widen-AreNum k num) (widen-BelowSome v k below)
