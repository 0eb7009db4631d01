-- ===== src/Stub/Frame.antt =====
-- What the assignments of the stubs of share/mopsa/stubs/c leave alone, and searches over a range.
use mopsa_ocaml.Prelude.{
  ℕ, zero, suc, ◌+◌, ◌<◌, ◌≡◌, refl, ◌≢◌, ◌⊎◌, inl, inr, Bool, true, false, arith, Bool-cases,
}
use mopsa_ocaml.Stub.Memory.{
  pos, negsuc, Ptr, null, invalid, at, Memory, byte, Forall, Exists, ValidBytes, NoOverlap,
}
use mopsa_ocaml.Stub.Contract.{Assigns}

apart :
    (b o n c p k i j : ℕ)
    → NoOverlap (at b (pos o)) n (at c (pos p)) k
    → i < n
    → j < k
    → at c (pos (p + j)) ≢ at b (pos (o + i))
apart b o n c p k i j separate hi hj e =
    let block : b ≡ c = ground arith in
    let place : p + j ≡ o + i = ground arith in
    ground (arith, separate (omega arith) (omega arith) block)

-- The `n` bytes at `p` are kept by an assignment to the `k` bytes at `q`.
pub byte_kept :
    (m m' : Memory) (p : Ptr) (n : ℕ) (q : Ptr) (k : ℕ)
    → NoOverlap p n q k
    → ValidBytes m p n
    → ValidBytes m q k
    → Assigns q k m m'
    → Forall 0 n λ i. byte m' p i ≡ byte m p i
byte_kept m m' null n q k separate v w x i _ h = refl
byte_kept m m' invalid n q k separate v w x i _ h = refl
byte_kept m m' (at b (negsuc o)) n q k separate v w x i _ h = absurd (v (omega arith))
byte_kept m m' (at b (pos o)) n null k separate v w x i _ h =
    x.same_cell b (o + i) λ j hj e. absurd (w (omega arith))
byte_kept m m' (at b (pos o)) n invalid k separate v w x i _ h =
    x.same_cell b (o + i) λ j hj e. absurd (w (omega arith))
byte_kept m m' (at b (pos o)) n (at c (negsuc p)) k separate v w x i _ h =
    x.same_cell b (o + i) λ j hj e. absurd (w (omega arith))
byte_kept m m' (at b (pos o)) n (at c (pos p)) k separate v w x i _ h =
    x.same_cell b (o + i) λ j hj. apart b o n c p k i j separate h hj

-- The least number below `n` that passes a test, if there is one.
pub first_or_none :
    (p : ℕ → Bool) (n : ℕ)
    → Forall 0 n (λ i. p i ≡ false) ⊎ Exists 0 n (λ i. (p i ≡ true) × Forall 0 i (λ j. p j ≡ false))
first_or_none p zero = inl λ i _ h. elim h [ ]
first_or_none p (suc n) = elim (first_or_none p n) [
  | inr (i, low, high, found) ↦ inr (i, low, omega arith, found)
  | inl before ↦ elim (Bool-cases (p n)) [
    | inl hit ↦ inr (n, omega arith, omega arith, (hit, before))
    | inr miss ↦ inl λ i low high. ground (arith, before i low)
  ]
]
