-- ===== src/Stub/Contract.antt =====
-- Contracts of stubs: `requires`, `assigns`, `ensures`, `local` and `new Memory`, with the memory
-- before a call and the memory after it (the primed one).
use mathlib.Core.Path.{◌≡◌}
use mopsa_ocaml.Prelude.{ℕ, ◌<◌, ◌≢◌, false, true}
use mopsa_ocaml.Stub.Memory.{Memory, Ptr, at, pos, shift}

-- A stub that assigns nothing.
pub record Query (R : Type 0) : Type 1 where
  pub requires : Memory → Type 0
  pub returns : Memory → R → Type 0

-- A stub that changes memory.
pub record Action (R : Type 0) : Type 1 where
  pub requires : Memory → Type 0
  pub ensures : Memory → R → Memory → Type 0

-- `local: R r = q(...);` before a requirement, and before what is ensured.
abbrev pub Requiring : {R : Type 0} → Query R → Memory → (R → Type 0) → Type 0
Requiring {R} q m P = q.requires m × ((r : R) → q.returns m r → P r)

abbrev pub Knowing : {R : Type 0} → Query R → Memory → (R → Type 0) → Type 0
Knowing {R} q m P = (r : R) × q.returns m r × P r

-- `assigns: p[0, n);`: nothing but these bytes changes.
pub record Assigns (p : Ptr) (n : ℕ) (m m' : Memory) : Type 0 where
  pub same_alive : (b : ℕ) → m'.alive b ≡ m.alive b
  pub same_size : (b : ℕ) → m'.size b ≡ m.size b
  pub same_errno : m'.errno ≡ m.errno
  pub same_cell :
      (b o : ℕ) → ((i : ℕ) → i < n → shift p i ≢ at b (pos o)) → m'.cell b o ≡ m.cell b o

-- `assigns: _errno;`.
pub record AssignsErrno (m m' : Memory) : Type 0 where
  pub same_alive : (b : ℕ) → m'.alive b ≡ m.alive b
  pub same_size : (b : ℕ) → m'.size b ≡ m.size b
  pub same_cell : (b o : ℕ) → m'.cell b o ≡ m.cell b o

-- `local: T* r = new Memory;`: a block that was not alive, and nothing else changes.
pub record NewMemory (b : ℕ) (m m' : Memory) : Type 0 where
  pub fresh : m.alive b ≡ false
  pub now_alive : m'.alive b ≡ true
  pub same_alive : (c : ℕ) → c ≢ b → m'.alive c ≡ m.alive c
  pub same_size : (c : ℕ) → c ≢ b → m'.size c ≡ m.size c
  pub same_cell : (c o : ℕ) → c ≢ b → m'.cell c o ≡ m.cell c o
  pub same_errno : m'.errno ≡ m.errno
