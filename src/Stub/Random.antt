-- ===== src/Stub/Random.antt =====
-- The random numbers of share/mopsa/stubs/c/libc/stdlib.c. Of the generators' own states, which the
-- contracts assign and do not constrain, only the buffers and their lengths are modelled.
pub mod Buffers
mod Tests
use mathlib.Core.Path.{◌≡◌}
use mopsa_ocaml.Prelude.{ℕ, ℤ, pos, negsuc, ◌≤◌, ◌⊎◌}
use mopsa_ocaml.Math.Floats.{Floats, Function, Valid, Le}
use mopsa_ocaml.Stub.Memory.{Ptr, null, Memory, ValidBytes}
use mopsa_ocaml.Stub.Contract.{Assigns, AssignsErrno}

-- `_rand__statebuf` and `_rand__statelen`.
pub record Random : Type 0 where
  pub memory : Memory
  pub statebuf : Ptr
  pub statelen : ℕ

pub record Generator (R : Type 0) : Type 1 where
  pub requires : Random → Type 0
  pub ensures : Random → R → Random → Type 0

unfoldable pub initstate : Ptr → ℕ → Generator Ptr
initstate buf n = record {
  requires = λ w. (8 ≤ n) × ValidBytes w.memory buf n;
  ensures = λ w r w'.
      Assigns buf n w.memory w'.memory × (w'.statebuf ≡ buf) × (w'.statelen ≡ n) × (r ≡ w.statebuf);
}

-- The buffer changes where the call fails, too.
unfoldable pub setstate : Ptr → Generator Ptr
setstate buf = record {
  requires = λ w. ValidBytes w.memory buf w.statelen;
  ensures = λ w r w'.
      (w'.statebuf ≡ buf)
      × (w'.statelen ≡ w.statelen)
      × (((w'.memory ≡ w.memory) × (r ≡ w.statebuf))
          ⊎ (AssignsErrno w.memory w'.memory × (r ≡ null)));
}

-- `struct random_data`: `rand_deg` keeps the length of the buffer.
pub record RandomData : Type 0 where
  pub memory : Memory
  pub rand_deg : ℕ

pub record Reentrant (R : Type 0) : Type 1 where
  pub requires : RandomData → Type 0
  pub ensures : RandomData → R → RandomData → Type 0

-- The cases "success" and "failure" of a function that assigns these bytes.
abbrev pub Reported : (Memory → Memory → Type 0) → Memory → ℤ → Memory → Type 0
Reported P m r m' =
    (P m m' × (r ≡ pos 0)) ⊎ (((m1 : Memory) × P m m1 × AssignsErrno m1 m') × (r ≡ negsuc 0))

unfoldable pub initstate_r : Ptr → ℕ → Reentrant ℤ
initstate_r buf n = record {
  requires = λ w. (8 ≤ n) × ValidBytes w.memory buf n;
  ensures = λ w r w'. (w'.rand_deg ≡ n) × Reported (Assigns buf n) w.memory r w'.memory;
}

unfoldable pub setstate_r : Ptr → Reentrant ℤ
setstate_r buf = record {
  requires = λ w. ValidBytes w.memory buf w.rand_deg;
  ensures =
      λ w r w'. (w'.rand_deg ≡ w.rand_deg) × Reported (Assigns buf w.rand_deg) w.memory r w'.memory;
}

-- `r in [0, n]`, and `r in [-2147483648, 2147483647]`.
abbrev pub Below : ℕ → ℤ → Type 0
Below n r = (k : ℕ) × (k ≤ n) × (r ≡ pos k)

abbrev pub Int32 : ℤ → Type 0
Int32 r = (k : ℕ) × (k ≤ 2147483647) × ((r ≡ pos k) ⊎ (r ≡ negsuc k))

-- The results of random and its like, below RAND_MAX; of a function with `__result`, what that
-- becomes and what is returned.
module _ (rand_max : ℕ) where
  unfoldable pub random : Function ℤ
  random = record { requires = Unit; ensures = λ r. Below rand_max r }

  unfoldable pub rand : Function ℤ
  rand = record { requires = Unit; ensures = λ r. Below rand_max r }

  unfoldable pub rand_r : Function ℤ
  rand_r = record { requires = Unit; ensures = λ r. Below rand_max r }

  unfoldable pub random_r : Function (ℤ × ℤ)
  random_r = record {
    requires = Unit;
    ensures = λ r. Below rand_max r.0 × ((r.1 ≡ pos 0) ⊎ (r.1 ≡ negsuc 0));
  }

unfoldable pub lrand48 : Function ℤ
lrand48 = record { requires = Unit; ensures = λ r. Below 2147483647 r }

unfoldable pub nrand48 : Function ℤ
nrand48 = record { requires = Unit; ensures = λ r. Below 2147483647 r }

unfoldable pub mrand48 : Function ℤ
mrand48 = record { requires = Unit; ensures = λ r. Int32 r }

unfoldable pub jrand48 : Function ℤ
jrand48 = record { requires = Unit; ensures = λ r. Int32 r }

unfoldable pub lrand48_r : Function (ℤ × ℤ)
lrand48_r = record { requires = Unit; ensures = λ r. Below 2147483647 r.0 × (r.1 ≡ pos 0) }

unfoldable pub nrand48_r : Function (ℤ × ℤ)
nrand48_r = record { requires = Unit; ensures = λ r. Below 2147483647 r.0 × (r.1 ≡ pos 0) }

unfoldable pub mrand48_r : Function (ℤ × ℤ)
mrand48_r = record { requires = Unit; ensures = λ r. Int32 r.0 × (r.1 ≡ pos 0) }

unfoldable pub jrand48_r : Function (ℤ × ℤ)
jrand48_r = record { requires = Unit; ensures = λ r. Int32 r.0 × (r.1 ≡ pos 0) }

module _ (F : Floats) where
  -- `valid_float(r) and r in [0., 1.]`.
  abbrev pub UnitInterval : F.value → Type 0
  UnitInterval r = Valid F r × Le F (F.num (pos 0)) (F.widen r) × Le F (F.widen r) (F.num (pos 1))

  unfoldable pub drand48 : Function F.value
  drand48 = record { requires = Unit; ensures = UnitInterval }

  unfoldable pub erand48 : Function F.value
  erand48 = record { requires = Unit; ensures = UnitInterval }

  unfoldable pub drand48_r : Function (F.value × ℤ)
  drand48_r = record { requires = Unit; ensures = λ r. UnitInterval r.0 × (r.1 ≡ pos 0) }

  unfoldable pub erand48_r : Function (F.value × ℤ)
  erand48_r = record { requires = Unit; ensures = λ r. UnitInterval r.0 × (r.1 ≡ pos 0) }
