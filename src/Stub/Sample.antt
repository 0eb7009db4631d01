-- ===== src/Stub/Sample.antt =====
-- A small memory for the tests of the stubs: "ab" in block 1, "x" in block 2, zeros elsewhere.
use mopsa_ocaml.Prelude.{ℕ, zero, suc, ◌≢◌, List, [], ◌∷◌, true, arith, ◌==◌, if◌then◌else◌}
use mopsa_ocaml.Stub.Memory.{Ptr, at, pos, Memory, byte, Forall}

abbrev nth : List ℕ → ℕ → ℕ
nth [] i = 0
nth (x ∷ xs) zero = x
nth (x ∷ xs) (suc i) = nth xs i

abbrev block : ℕ → List ℕ
block b = if b == 1 then 97 ∷ 98 ∷ [] else if b == 2 then 120 ∷ [] else []

abbrev pub sample : Memory
sample = record {
  alive = λ b. if b == 1 then true else b == 2;
  size = λ b. 8;
  cell = λ b o. nth (block b) o;
  errno = pos 0;
}

abbrev pub zeros : Memory
zeros = record { alive = λ b. true; size = λ b. 8; cell = λ b o. 0; errno = pos 0 }

abbrev pub ab : Ptr
ab = at 1 (pos 0)

abbrev pub x : Ptr
x = at 2 (pos 0)

pub ab_nonzero : Forall 0 2 λ i. byte sample ab i ≢ 0
ab_nonzero zero low high e = omega arith
ab_nonzero (suc zero) low high e = omega arith
ab_nonzero (suc (suc i)) low high e = absurd (omega arith)

pub x_nonzero : Forall 0 1 λ i. byte sample x i ≢ 0
x_nonzero zero low high e = omega arith
x_nonzero (suc i) low high e = absurd (omega arith)
