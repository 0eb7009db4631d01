-- ===== src/System/Roundtrip.antt =====
-- What is left of the world when what a call made is freed again: nothing.
pub mod Blocks
pub mod Streams
use mathlib.Core.Path.{◌≡◌}
use mopsa_ocaml.Prelude.{ℕ, ℤ, pos, ◌≢◌, inl, inr, true, arith, some}
use mopsa_ocaml.Stub.Memory.{Ptr}
use mopsa_ocaml.System.Table.{find, register, remove}
use mopsa_ocaml.System.Lookup.{find-register, find-remove, register-find, register-free}
use mopsa_ocaml.System.World.{
  World, Kind, file_res, NewResource, registered, freed, find_file_resource, minus_one,
  smallest_free,
}
use mopsa_ocaml.System.Descriptors.{Opens, Closes, open_file, close}
use mopsa_ocaml.System.Invariant.{Inv}

-- The same descriptors, and the same live blocks with the same contents.
pub record Restored (w w' : World) : Type 0 where
  pub same_table : (fd : ℕ) → find w'.table fd ≡ find w.table fd
  pub same_alive : (b : ℕ) → w'.memory.alive b ≡ w.memory.alive b
  pub same_kind : (b : ℕ) → w.memory.alive b ≡ true → w'.kind b ≡ w.kind b
  pub same_size : (b : ℕ) → w.memory.alive b ≡ true → w'.memory.size b ≡ w.memory.size b
  pub same_cell : (b o : ℕ) → w.memory.alive b ≡ true → w'.memory.cell b o ≡ w.memory.cell b o

fresh_apart :
    (k : Kind) (f b : ℕ) (w w' : World) → NewResource k f w w' → w.memory.alive b ≡ true → b ≢ f
fresh_apart k f b w w' new live = ground (arith, new.new_memory.fresh)

-- A block that is made and freed.
pub block-Restored :
    (k : Kind) (b : ℕ) (w w' : World)
    → k ≢ file_res
    → NewResource k b w w'
    → Restored w (freed w' b)
block-Restored k b w w' block new = record {
  same_table = λ fd. ground (arith, new.new_kind, new.same_table);
  same_alive = λ c. ground (arith, new.new_memory.same_alive c, new.new_memory.fresh);
  same_kind = λ c live. new.same_kind c (fresh_apart k b c w w' new live);
  same_size = λ c live. new.new_memory.same_size c (fresh_apart k b c w w' new live);
  same_cell = λ c o live. new.new_memory.same_cell c o (fresh_apart k b c w w' new live);
}

removed-register :
    (f : ℕ) (w w' : World)
    → NewResource file_res f w w'
    → Inv w
    → (fd : ℕ) → find (remove (register w'.table f).1 f) fd ≡ find w.table fd
removed-register f w w' new inv fd =
    rw (find-remove (register w'.table f).1 f fd, find-register w'.table f fd, new.same_table)
      ground (arith, inv fd f, register-free w.table f, new.new_memory.fresh)

-- A file that is opened and closed.
pub file-Restored :
    (f : ℕ) (w w' : World)
    → NewResource file_res f w w'
    → Inv w
    → Restored w (freed (registered w' f) f)
file-Restored f w w' new inv = record {
  same_table = λ fd. rw new.new_kind (removed-register f w w' new inv fd);
  same_alive = λ c. ground (arith, new.new_memory.same_alive c, new.new_memory.fresh);
  same_kind = λ c live. new.same_kind c (fresh_apart file_res f c w w' new live);
  same_size = λ c live. new.new_memory.same_size c (fresh_apart file_res f c w w' new live);
  same_cell = λ c o live. new.new_memory.same_cell c o (fresh_apart file_res f c w w' new live);
}

-- An outcome that is not -1 is the one that opens.
pub open_file-Opens :
    (name : Ptr) (w : World) (r : ℤ) (w' : World)
    → (open_file name).ensures w r w'
    → r ≢ minus_one
    → Opens w r w'
unfolding open_file
open_file-Opens name w r w' (inl e) ok = e
open_file-Opens name w r w' (inr e) ok = absurd (ok e.1)

pub close-Closes :
    (fd : ℤ) (w : World) (r : ℤ) (w' : World)
    → (close fd).ensures w r w'
    → r ≡ pos 0
    → Closes fd w w'
unfolding close
close-Closes fd w r w' (inl e) ok = e.0
close-Closes fd w r w' (inr e) ok = absurd (ground arith)

pub found_new :
    (w : World) (f : ℕ) (w' : World) (fd : ℤ) (g : ℕ)
    → w' ≡ registered w f
    → fd ≡ smallest_free w f
    → find_file_resource w' fd ≡ some g
    → g ≡ f
found_new w f w' fd g e e_fd found = ground (arith, rw (e, e_fd, register-find w.table f) at found)

-- If every descriptor stands for a live FileRes resource, open returns a descriptor other than -1,
-- and close of that descriptor returns 0, then every descriptor stands for what it stood for
-- before, the same blocks are alive, and those have the kinds, sizes and contents they had.
pub open-close :
    (name : Ptr) (w : World) (fd : ℤ) (w1 : World) (r : ℤ) (w2 : World)
    → Inv w
    → (open_file name).ensures w fd w1
    → fd ≢ minus_one
    → (close fd).ensures w1 r w2
    → r ≡ pos 0
    → Restored w w2
open-close name w fd w1 r w2 inv opens ok closes done =
    let (f, w0, new, e, e_fd) = open_file-Opens name w fd w1 opens ok in
    let (g, found, e2) = close-Closes fd w1 r w2 closes done in
    let same = found_new w0 f w1 fd g e e_fd found in
    rw (e2, e, same) (file-Restored f w w0 new inv)
