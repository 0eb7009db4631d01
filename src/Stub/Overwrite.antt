-- ===== src/Stub/Overwrite.antt =====
-- Writing a run of bytes, as a reference for what the stubs of share/mopsa/stubs/c assign; and how
-- far a contract fixes the memory after a call.
use mathlib.Core.Path.{ap}
use mopsa_ocaml.Prelude.{
  ℕ, ◌+◌, ◌-◌, ◌<◌, ◌≡◌, refl, sym, ◌∙◌, ◌≢◌, inl, inr, Bool, false, ◌&&◌, arith, leb, ltb, ◌==◌,
  if◌then◌else◌, Bool-cases,
}
use mopsa_ocaml.Stub.Memory.{
  pos, negsuc, Ptr, null, invalid, at, Memory, shift, byte, Forall, ValidBytes,
}
use mopsa_ocaml.Stub.Contract.{Assigns}

-- Whether offset `q` of block `c` is one of the `n` bytes from offset `o` of block `b`.
abbrev pub covers : ℕ → ℕ → ℕ → ℕ → ℕ → Bool
covers b o n c q = (c == b) && (leb o q && ltb q (o + n))

-- The memory with `f i` at `p + i`, for each `i < n`.
abbrev pub overwrite : Memory → Ptr → ℕ → (ℕ → ℕ) → Memory
overwrite m (at b (pos o)) n f = record m {
  cell = λ c q. if covers b o n c q then f (q - o) else m.cell c q;
}
overwrite m _ n f = m

at_pos : (b o i c q : ℕ) → c ≡ b → q ≡ o + i → at b (pos (o + i)) ≡ at c (pos q)
at_pos b o i c q e d = cc

Assigns-self : (m : Memory) (p : Ptr) (n : ℕ) → Assigns p n m m
Assigns-self m p n = record {
  same_alive = λ c. refl;
  same_size = λ c. refl;
  same_errno = refl;
  same_cell = λ c q outside. refl;
}

pub overwrite-Assigns :
    (m : Memory) (p : Ptr) (n : ℕ) (f : ℕ → ℕ) → Assigns p n m (overwrite m p n f)
overwrite-Assigns m null n f = Assigns-self m null n
overwrite-Assigns m invalid n f = Assigns-self m invalid n
overwrite-Assigns m (at b (negsuc o)) n f = Assigns-self m (at b (negsuc o)) n
overwrite-Assigns m (at b (pos o)) n f = record {
  same_alive = λ c. refl;
  same_size = λ c. refl;
  same_errno = refl;
  same_cell = λ c q outside. ground (arith, outside (q - o), at_pos b o (q - o) c q);
}

pub byte-overwrite :
    (m : Memory) (p : Ptr) (n : ℕ) (f : ℕ → ℕ) (i : ℕ)
    → ValidBytes m p n
    → i < n
    → byte (overwrite m p n f) p i ≡ f i
byte-overwrite m null n f i v h = absurd (v (omega arith))
byte-overwrite m invalid n f i v h = absurd (v (omega arith))
byte-overwrite m (at b (negsuc o)) n f i v h = absurd (v (omega arith))
byte-overwrite m (at b (pos o)) n f i v h =
    ground (arith, ap f (let e : o + i - o ≡ i = omega arith in e))

-- Two memories that no stub can tell apart.
pub record SameMemory (m m' : Memory) : Type 0 where
  pub alive_eq : (b : ℕ) → m.alive b ≡ m'.alive b
  pub size_eq : (b : ℕ) → m.size b ≡ m'.size b
  pub errno_eq : m.errno ≡ m'.errno
  pub cell_eq : (b o : ℕ) → m.cell b o ≡ m'.cell b o

-- Two outcomes agree outside of what was assigned.
cell_eq_outside :
    (m m1 m2 : Memory) (p : Ptr) (n : ℕ)
    → Assigns p n m m1
    → Assigns p n m m2
    → (c q : ℕ) → ((i : ℕ) → i < n → shift p i ≢ at c (pos q))
    → m1.cell c q ≡ m2.cell c q
cell_eq_outside m m1 m2 p n x y c q outside =
    x.same_cell c q outside ∙ sym (y.same_cell c q outside)

not_covered :
    (b o n c q : ℕ) → covers b o n c q ≡ false → (i : ℕ) → i < n → at b (pos (o + i)) ≢ at c (pos q)
not_covered b o n c q miss i h e = ground arith

cell_eq_of :
    (m m1 m2 : Memory) (p : Ptr) (n : ℕ)
    → ValidBytes m p n
    → Assigns p n m m1
    → Assigns p n m m2
    → Forall 0 n (λ i. byte m1 p i ≡ byte m2 p i)
    → (c q : ℕ) → m1.cell c q ≡ m2.cell c q
cell_eq_of m m1 m2 null n v x y same c q =
    cell_eq_outside m m1 m2 null n x y c q λ i h e. absurd (v (omega arith))
cell_eq_of m m1 m2 invalid n v x y same c q =
    cell_eq_outside m m1 m2 invalid n x y c q λ i h e. absurd (v (omega arith))
cell_eq_of m m1 m2 (at b (negsuc o)) n v x y same c q =
    cell_eq_outside m m1 m2 (at b (negsuc o)) n x y c q λ i h e. absurd (v (omega arith))
cell_eq_of m m1 m2 (at b (pos o)) n v x y same c q = elim (Bool-cases (covers b o n c q)) [
  | inl hit ↦
      let place : o + (q - o) ≡ q = ground arith in
      let block : c ≡ b = ground arith in
      rw block (rw place at (same (q - o) (omega arith) (ground arith)))
  | inr miss ↦ cell_eq_outside m m1 m2 (at b (pos o)) n x y c q (not_covered b o n c q miss)
]

-- What a stub assigns is fixed by the bytes that it leaves there.
pub SameMemory-of_bytes :
    (m m1 m2 : Memory) (p : Ptr) (n : ℕ)
    → ValidBytes m p n
    → Assigns p n m m1
    → Assigns p n m m2
    → Forall 0 n (λ i. byte m1 p i ≡ byte m2 p i)
    → SameMemory m1 m2
SameMemory-of_bytes m m1 m2 p n v x y same = record {
  alive_eq = λ b. x.same_alive b ∙ sym (y.same_alive b);
  size_eq = λ b. x.same_size b ∙ sym (y.same_size b);
  errno_eq = x.same_errno ∙ sym y.same_errno;
  cell_eq = cell_eq_of m m1 m2 p n v x y same;
}
