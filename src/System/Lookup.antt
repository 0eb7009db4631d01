-- ===== src/System/Lookup.antt =====
-- What a descriptor stands for after the table has changed.
use mathlib.Core.Path.{◌≡◌}
use mopsa_ocaml.Prelude.{ℕ, zero, suc, ◌<◌, refl, arith, [], ◌∷◌, none, some, ◌==◌, if◌then◌else◌}
use mopsa_ocaml.System.Table.{Table, find, register, register_at, remove, keep}

pub find-register :
    (t : Table) (f fd : ℕ)
    → find (register t f).1 fd ≡ (if fd == (register t f).0 then some f else find t fd)
unfolding find register
find-register [] f zero = refl
find-register [] f (suc fd) = ground arith
find-register (none ∷ t) f zero = refl
find-register (none ∷ t) f (suc fd) = ground arith
find-register (some g ∷ t) f zero = ground arith
find-register (some g ∷ t) f (suc fd) = ground (arith, find-register t f fd)

pub register-find : (t : Table) (f : ℕ) → find (register t f).1 (register t f).0 ≡ some f
register-find t f = rw (find-register t f (register t f).0) ground arith

pub register-free : (t : Table) (f : ℕ) → find t (register t f).0 ≡ none
unfolding find register
register-free [] f = refl
register-free (none ∷ t) f = refl
register-free (some g ∷ t) f = register-free t f

pub register-least : (t : Table) (f fd : ℕ) → fd < (register t f).0 → (g : ℕ) × (find t fd ≡ some g)
unfolding find register
register-least [] f fd low = absurd (omega arith)
register-least (none ∷ t) f fd low = absurd (omega arith)
register-least (some g ∷ t) f zero low = (g, refl)
register-least (some g ∷ t) f (suc fd) low = register-least t f fd (omega arith)

pub find-register_at :
    (t : Table) (f fd i : ℕ) → find (register_at t f fd) i ≡ (if i == fd then some f else find t i)
unfolding find register_at
find-register_at [] f zero zero = refl
find-register_at [] f zero (suc i) = ground arith
find-register_at [] f (suc fd) zero = ground arith
find-register_at [] f (suc fd) (suc i) = ground (arith, find-register_at [] f fd i)
find-register_at (x ∷ t) f zero zero = refl
find-register_at (x ∷ t) f zero (suc i) = ground arith
find-register_at (x ∷ t) f (suc fd) zero = ground arith
find-register_at (x ∷ t) f (suc fd) (suc i) = ground (arith, find-register_at t f fd i)

pub find-remove : (t : Table) (f fd : ℕ) → find (remove t f) fd ≡ keep f (find t fd)
unfolding find remove
find-remove [] f fd = refl
find-remove (x ∷ t) f zero = refl
find-remove (x ∷ t) f (suc fd) = find-remove t f fd
