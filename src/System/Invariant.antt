-- ===== src/System/Invariant.antt =====
-- Every descriptor in the table stands for an open file.
pub mod Outcomes
pub mod Blocks
pub mod Files
pub mod Run
use mathlib.Core.Path.{◌≡◌}
use mopsa_ocaml.Prelude.{ℕ, true, arith, some}
use mopsa_ocaml.Stub.Memory.{Memory}
use mopsa_ocaml.System.Table.{find}
use mopsa_ocaml.System.Lookup.{find-register, find-register_at, find-remove}
use mopsa_ocaml.System.World.{
  World, Kind, file_res, OnMemory, NewResource, registered, registered_at, freed,
}

-- The resource is an open file.
abbrev pub Opened : World → ℕ → Type 0
Opened w f = (w.kind f ≡ file_res) × (w.memory.alive f ≡ true)

abbrev pub Inv : World → Type 0
Inv w = (fd f : ℕ) → find w.table fd ≡ some f → Opened w f

-- Memory may change, the blocks that are alive apart.
pub OnMemory-Inv :
    (w w' : World) (P : Memory → Memory → Type 0)
    → ((m m' : Memory) → P m m' → (b : ℕ) → m'.alive b ≡ m.alive b)
    → OnMemory P w w'
    → Inv w
    → Inv w'
OnMemory-Inv w w' P same (m, p, e) inv =
    rw e λ fd f h. ground (arith, inv fd f h, same w.memory m p f)

pub new-Inv : (k : Kind) (b : ℕ) (w w' : World) → NewResource k b w w' → Inv w → Inv w'
new-Inv k b w w' new inv fd f h = ground (
  arith,
  inv fd f (rw (← new.same_table) h),
  new.new_memory.fresh,
  new.new_memory.same_alive f,
  new.same_kind f,
)

pub registered-Inv : (w : World) (f : ℕ) → Opened w f → Inv w → Inv (registered w f)
registered-Inv w f new inv fd g h = ground (arith, inv fd g, find-register w.table f fd)

pub registered_at-Inv : (w : World) (f fd : ℕ) → Opened w f → Inv w → Inv (registered_at w f fd)
registered_at-Inv w f fd new inv i g h = ground (arith, inv i g, find-register_at w.table f fd i)

pub freed-Inv : (w : World) (b : ℕ) → Inv w → Inv (freed w b)
freed-Inv w b inv fd f h = ground (arith, inv fd f, find-remove w.table b fd)
