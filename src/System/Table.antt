-- ===== src/System/Table.antt =====
-- The descriptor table behind libc/mopsa_libc_utils.h: which resource each file descriptor stands for.
use mopsa_ocaml.Prelude.{ℕ, zero, suc, List, [], ◌∷◌, Option, none, some, ◌==◌, if◌then◌else◌}

abbrev pub Table : Type 0
Table = List (Option ℕ)

-- _mopsa_find_file_resource.
unfoldable pub find : Table → ℕ → Option ℕ
find [] fd = none
find (x ∷ t) zero = x
find (x ∷ t) (suc fd) = find t fd

-- _mopsa_register_file_resource, as libc/mopsa_libc_utils.h has it: "the smallest available file
-- descriptor". A resource that is in the table already keeps its other descriptors.
unfoldable pub register : Table → ℕ → ℕ × Table
register [] f = (0, some f ∷ [])
register (none ∷ t) f = (0, some f ∷ t)
register (some g ∷ t) f = let rest = register t f in (suc rest.0, some g ∷ rest.1)

-- _mopsa_register_file_resource_at.
unfoldable pub register_at : Table → ℕ → ℕ → Table
register_at [] f zero = some f ∷ []
register_at [] f (suc fd) = none ∷ register_at [] f fd
register_at (x ∷ t) f zero = some f ∷ t
register_at (x ∷ t) f (suc fd) = x ∷ register_at t f fd

-- What is left of an entry when the resource is removed.
abbrev pub keep : ℕ → Option ℕ → Option ℕ
keep f none = none
keep f (some g) = if g == f then none else some g

-- Slot.remove and Table.remove, for a resource that is freed.
unfoldable pub remove : Table → ℕ → Table
remove [] f = []
remove (x ∷ t) f = keep f x ∷ remove t f
