-- ===== src/Ints/Loops.antt =====
-- lfp of analyzer/languages/universal/iterators/loops.ml: the increasing iterations of a loop, over the
-- environment of the current flow. `body` stands for the condition, the body and the merge with the
-- `continue` flow; break flows and reports, which each round drops, are left out.
pub mod Ends
pub mod Delay
use mopsa_ocaml.Prelude.{ℕ, zero, suc, ◌-◌, Bool, Option, none, some, ◌==◌, if◌then◌else◌}

-- What lfp calls of `man.lattice`.
pub record Lattice (S : Type 0) : Type 0 where
  pub subset : S → S → Bool
  pub join : S → S → S
  pub widen : S → S → S

-- `widening_delay` is `!opt_loop_widening_delay`, and `none` means that the fuel ran out.
module _ {S : Type 0} (lattice : Lattice S) (widening_delay : ℕ) (body : S → S)
    (flow_init : S) where
  unfoldable pub lfp : ℕ → ℕ → S → Option S
  lfp zero delay flow = none
  lfp (suc fuel) delay flow =
      let flow' = lattice.join flow_init (body flow) in
      let widened = lfp fuel widening_delay (lattice.widen flow flow') in
      let delayed = lfp fuel (delay - 1) flow' in
      if lattice.subset flow' flow then some flow' else if delay == 0 then widened else delayed
