-- ===== src/System/World.antt =====
-- The state that the stubs of fcntl.c, unistd.c, stdio.c and stdlib.c speak of: memory, resources and
-- file descriptors.
use mathlib.Core.Path.{◌≡◌}
use mopsa_ocaml.Prelude.{
  ℕ, ℤ, pos, negsuc, ◌≤◌, ◌≢◌, ◌⊎◌, Bool, true, false, Option, none, some, ◌==◌, if◌then◌else◌,
}
use mopsa_ocaml.Stub.Memory.{Ptr, at, Memory}
use mopsa_ocaml.Stub.Contract.{AssignsErrno, NewMemory}
use mopsa_ocaml.System.Table.{Table, find, register, register_at, remove}

-- The resources `Memory`, `File` and `FileRes`.
pub data Kind : Type 0 where
  heap file file_res : Kind

pub record World : Type 0 where
  pub memory : Memory
  pub kind : ℕ → Kind
  pub table : Table
  pub fileno : ℕ → ℤ

-- What the system's headers define: AT_FDCWD, EOF and sizeof(FILE).
pub record Headers : Type 0 where
  pub at_fdcwd : ℤ
  pub eof : ℤ
  pub sizeof_file : ℕ

-- The contract of a stub, over the world before a call and the one after it.
pub record Stub (R : Type 0) : Type 1 where
  pub requires : World → Type 0
  pub ensures : World → R → World → Type 0

abbrev pub is_file_res : Kind → Bool
is_file_res file_res = true
is_file_res _ = false

-- Nothing but memory changes.
abbrev pub OnMemory : (Memory → Memory → Type 0) → World → World → Type 0
OnMemory P w w' = (m : Memory) × P w.memory m × (w' ≡ record w { memory = m })

-- `assigns: _errno;`.
abbrev pub Errno : World → World → Type 0
Errno = OnMemory AssignsErrno

-- `r >= 0`, and `r in [0, n]`.
abbrev pub NonNeg : ℤ → Type 0
NonNeg r = (n : ℕ) × (r ≡ pos n)

abbrev pub UpTo : ℕ → ℤ → Type 0
UpTo n r = (k : ℕ) × (k ≤ n) × (r ≡ pos k)

abbrev pub minus_one : ℤ
minus_one = negsuc 0

-- `case "failure" { assigns: _errno; ensures: return == -1; }`.
abbrev pub Fails : World → ℤ → World → Type 0
Fails w r w' = Errno w w' × (r ≡ minus_one)

-- The cases "success", with the result 0 and nothing assigned, and "failure".
abbrev pub Status : World → ℤ → World → Type 0
Status w r w' = ((w' ≡ w) × (r ≡ pos 0)) ⊎ Fails w r w'

-- `_mopsa_find_file_resource(fd)`.
abbrev pub find_file_resource : World → ℤ → Option ℕ
find_file_resource w (pos fd) = find w.table fd
find_file_resource w (negsuc fd) = none

-- `alive_resource(p, r)`.
abbrev pub AliveResource : World → Kind → Option ℕ → Type 0
AliveResource w k none = ⊥
AliveResource w k (some b) = (w.kind b ≡ k) × (w.memory.alive b ≡ true)

-- `local: void* f = _mopsa_find_file_resource(fd); requires: alive_resource(f, FileRes);`.
abbrev pub IsOpen : World → ℤ → Type 0
IsOpen w fd = AliveResource w file_res (find_file_resource w fd)

-- `fd == AT_FDCWD or alive_resource(f, FileRes)`.
abbrev pub AtOrOpen : Headers → World → ℤ → Type 0
AtOrOpen sys w fd = (fd ≡ sys.at_fdcwd) ⊎ IsOpen w fd

-- `p in R`.
abbrev pub InKind : World → Kind → Ptr → Type 0
InKind w k (at b o) = w.kind b ≡ k
InKind w k _ = ⊥

-- `p in R`, for a resource that the contract frees: to free a dead one is an alarm.
abbrev pub IsFreeable : World → Kind → Ptr → Type 0
IsFreeable w k (at b o) = AliveResource w k (some b)
IsFreeable w k _ = ⊥

-- `local: T* b = new R;`.
pub record NewResource (k : Kind) (b : ℕ) (w w' : World) : Type 0 where
  pub new_memory : NewMemory b w.memory w'.memory
  pub new_kind : w'.kind b ≡ k
  pub same_kind : (c : ℕ) → c ≢ b → w'.kind c ≡ w.kind c
  pub same_table : w'.table ≡ w.table
  pub same_fileno : (c : ℕ) → c ≢ b → w'.fileno c ≡ w.fileno c

-- `local: int fd = _mopsa_register_file_resource(f);`.
abbrev pub registered : World → ℕ → World
registered w f = record w { table = (register w.table f).1 }

abbrev pub registered_at : World → ℕ → ℕ → World
registered_at w f fd = record w { table = register_at w.table f fd }

abbrev pub smallest_free : World → ℕ → ℤ
smallest_free w f = pos (register w.table f).0

-- `free: b;`.
abbrev pub freed : World → ℕ → World
freed w b = record w {
  memory = record w.memory { alive = λ c. if c == b then false else w.memory.alive c };
  table = if is_file_res (w.kind b) then remove w.table b else w.table;
}
