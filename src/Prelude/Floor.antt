-- ===== src/Prelude/Floor.antt =====
-- Quotients by a positive integer that round down, by what they satisfy.
use mopsa_ocaml.Prelude.{ℤ, pos, ◌≡◌, ◌*◌, ◌<◌, ◌⊎◌, ℕ, inl, inr, ap, ◌∙◌, arith}
use mopsa_ocaml.Prelude.Signed.{
  pos_part, neg_part, ◌+ℤ◌, ◌*ℤ◌, ◌≤ℤ◌, +ℤ_parts, *ℤ_parts, *ℤ_comm, *ℤ_mono, eq_of_parts, signed,
}

mul-add-one : (q w : ℤ) → neg_part w ≡ 0 → (q +ℤ pos 1) *ℤ w ≡ (q *ℤ w) +ℤ w
mul-add-one q w e = eq_of_parts ((q +ℤ pos 1) *ℤ w) ((q *ℤ w) +ℤ w) (
    omega (
      arith,
      *ℤ_parts (q +ℤ pos 1) w,
      *ℤ_parts q w,
      +ℤ_parts (q *ℤ w) w,
      ap (λ (t : ℕ). t * pos_part w) (+ℤ_parts q (pos 1)),
      ap (λ (t : ℕ). t * pos_part q) e,
      ap (λ (t : ℕ). t * neg_part q) e,
      ap (λ (t : ℕ). t * pos_part (q +ℤ pos 1)) e,
      ap (λ (t : ℕ). t * neg_part (q +ℤ pos 1)) e,
    ))

-- The quotient of a number that is no greater is no greater.
pub quotient_mono :
    (w q r q' r' : ℤ)
    → neg_part w ≡ 0
    → neg_part r ≡ 0
    → pos_part r' < pos_part w
    → (w *ℤ q) +ℤ r ≤ℤ (w *ℤ q') +ℤ r'
    → q ≤ℤ q'
quotient_mono w q r q' r' wpos rpos small h =
    decide (rw (*ℤ_comm w q, *ℤ_comm w q') at h) (omega signed)
  where
    decide : (q *ℤ w) +ℤ r ≤ℤ (q' *ℤ w) +ℤ r' → (q ≤ℤ q') ⊎ (q' +ℤ pos 1 ≤ℤ q) → q ≤ℤ q'
    decide h (inl le) = le
    decide h (inr gt) =
        let grown : (q' *ℤ w) +ℤ w ≤ℤ q *ℤ w =
          rw (← mul-add-one q' w wpos) (*ℤ_mono (q' +ℤ pos 1) q w gt wpos) in
        absurd (omega signed)

pub times_zero : (w : ℤ) → w *ℤ pos 0 ≡ pos 0
times_zero w = eq_of_parts (w *ℤ pos 0) (pos 0) (omega (arith, *ℤ_parts w (pos 0)))

-- Two divisions of one number with remainders below the divisor agree.
pub remainders_agree :
    (w q r q' s : ℤ)
    → neg_part w ≡ 0
    → neg_part r ≡ 0
    → pos_part r < pos_part w
    → neg_part s ≡ 0
    → pos_part s < pos_part w
    → (w *ℤ q') +ℤ s ≡ (w *ℤ q) +ℤ r
    → r ≡ s
remainders_agree w q r q' s wpos rpos rlow spos slow e =
    let le : (w *ℤ q) +ℤ r ≤ℤ (w *ℤ q') +ℤ s = rw e (omega arith) in
    let ge : (w *ℤ q') +ℤ s ≤ℤ (w *ℤ q) +ℤ r = rw e (omega arith) in
    let below = quotient_mono w q r q' s wpos rpos slow le in
    let above = quotient_mono w q' s q r wpos spos rlow ge in
    let same : q ≡ q' = eq_of_parts q q' (omega arith) in
    let plain = rw same at e in
    let parts = ap pos_part plain in
    let parts' = ap neg_part plain in eq_of_parts r s (omega signed)

-- A number that is not negative and below the divisor is its own remainder.
pub remainder_unique :
    (w q r s : ℤ)
    → neg_part w ≡ 0
    → neg_part r ≡ 0
    → pos_part r < pos_part w
    → neg_part s ≡ 0
    → pos_part s < pos_part w
    → s ≡ (w *ℤ q) +ℤ r
    → r ≡ s
remainder_unique w q r s wpos rpos rlow spos slow e =
    let self : (w *ℤ pos 0) +ℤ s ≡ s =
      rw (times_zero w) (eq_of_parts (pos 0 +ℤ s) s (omega signed)) in
    remainders_agree w q r (pos 0) s wpos rpos rlow spos slow (self ∙ e)
