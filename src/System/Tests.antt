-- ===== src/System/Tests.antt =====
-- Small worlds: calls of the stubs one after the other.
mod Streams
mod Pairs
pub mod Blocks
use mathlib.Core.Path.{◌≡◌}
use mopsa_ocaml.Prelude.{
  ℕ, ℤ, pos, negsuc, ◌≤◌, ◌<◌, refl, ◌≢◌, inl, inr, true, false, arith, [], ◌∷◌, none, some, ◌==◌,
  if◌then◌else◌,
}
use mopsa_ocaml.Stub.Memory.{Ptr, null, at, Memory, ValidPtr, byte}
use mopsa_ocaml.Stub.Contract.{AssignsErrno}
use mopsa_ocaml.Stub.Sample.{sample, zeros, ab}
use mopsa_ocaml.System.Table.{find, register, register_at, remove}
use mopsa_ocaml.System.World.{
  World, Headers, Kind, heap, file, file_res, NewResource, registered, registered_at, freed,
  find_file_resource, IsOpen,
}
use mopsa_ocaml.System.Heap.{malloc, realloc, free, base, size_of}
use mopsa_ocaml.System.Descriptors.{open_file, close, dup, dup2}
use mopsa_ocaml.System.Streams.{fopen, fclose, popen, pclose, fileno, freed_file}
use mopsa_ocaml.System.Steps.{Reach, stop, after, call_open, call_close, call_fopen}
use mopsa_ocaml.System.Invariant.{Inv}
use mopsa_ocaml.System.Invariant.Run.{Reach-Inv}
use mopsa_ocaml.System.Roundtrip.{Restored, open-close}
use mopsa_ocaml.System.Roundtrip.Blocks.{Moved, malloc-free, realloc-Moved}
use mopsa_ocaml.System.Roundtrip.Streams.{fopen-fclose}
use mopsa_ocaml.System.Reuse.{open_file-least, dup-close}
use mopsa_ocaml.System.Closing.{popen-pclose, close_all, Drained}

abbrev pub headers : Headers
headers = record { at_fdcwd = negsuc 99; eof = negsuc 0; sizeof_file = 216 }

abbrev pub start : World
start = record { memory = sample; kind = λ b. heap; table = []; fileno = λ b. pos 0 }

-- A new resource with these contents, where the block is not alive.
abbrev pub filled : (ℕ → ℕ) → Kind → ℕ → ℕ → ℤ → World → World
filled contents k b n fd w = record {
  memory = record w.memory {
    alive = λ c. if c == b then true else w.memory.alive c;
    size = λ c. if c == b then n else w.memory.size c;
    cell = λ c o. if c == b then contents o else w.memory.cell c o;
  };
  kind = λ c. if c == b then k else w.kind c;
  table = w.table;
  fileno = λ c. if c == b then fd else w.fileno c;
}

abbrev pub made : Kind → ℕ → ℕ → ℤ → World → World
made = filled (λ o. 0)

pub filled-NewResource :
    (contents : ℕ → ℕ) (k : Kind) (b n : ℕ) (fd : ℤ) (w : World)
    → w.memory.alive b ≡ false
    → NewResource k b w (filled contents k b n fd w)
filled-NewResource contents k b n fd w fresh = record {
  new_memory = record {
    fresh = fresh;
    now_alive = ground arith;
    same_alive = λ c apart. ground arith;
    same_size = λ c apart. ground arith;
    same_cell = λ c o apart. ground arith;
    same_errno = refl;
  };
  new_kind = ground arith;
  same_kind = λ c apart. ground arith;
  same_table = refl;
  same_fileno = λ c apart. ground arith;
}

pub made-NewResource :
    (k : Kind) (b n : ℕ) (fd : ℤ) (w : World)
    → w.memory.alive b ≡ false
    → NewResource k b w (made k b n fd w)
made-NewResource = filled-NewResource (λ o. 0)

pub start-Inv : Inv start
unfolding find
start-Inv fd f e = absurd (ground arith)

-- A descriptor is opened.
abbrev pub with_file : World
with_file = made file_res 3 0 (pos 0) start

abbrev pub opened : World
opened = registered with_file 3

opens : (open_file ab).ensures start (pos 0) opened
unfolding open_file register
opens = inl (3, with_file, made-NewResource file_res 3 0 (pos 0) start refl, refl, refl)

pub ab_string : (open_file ab).requires start
unfolding open_file
ab_string = ((refl, omega arith), (2, omega arith, omega arith, refl))

closes : (close (pos 0)).ensures opened (pos 0) (freed opened 3)
unfolding close register find
closes = inl ((3, refl, refl), refl)

reached : Reach headers start opened
reached = after stop (call_open ab (ab_string, (pos 0, opens)))

pub opened-Inv : Inv opened
opened-Inv = Reach-Inv headers start opened reached start-Inv

Reach-Inv_example : Inv opened
Reach-Inv_example = Reach-Inv headers start opened reached start-Inv

open-close_example : Restored start (freed opened 3)
open-close_example =
    open-close ab start (pos 0) opened (pos 0) (freed opened 3) start-Inv opens (ground arith)
      closes refl

close_all_example : (w : World) × Drained headers opened w
close_all_example = close_all headers opened opened-Inv

-- It is closed, and another file opened.
abbrev closed : World
closed = freed opened 3

abbrev opened_again : World
opened_again = registered (made file_res 3 0 (pos 0) closed) 3

opens_again : (open_file ab).ensures closed (pos 0) opened_again
unfolding open_file register remove
opens_again = inl (
  3,
  made file_res 3 0 (pos 0) closed,
  made-NewResource file_res 3 0 (pos 0) closed refl,
  refl,
  refl,
)

-- Its descriptor is copied, in either way.
abbrev copied : World
copied = registered (made file_res 4 0 (pos 0) opened) 3

dups : (dup (pos 0)).ensures opened (pos 1) copied
unfolding dup register find
dups = inl (
  3,
  4,
  made file_res 4 0 (pos 0) opened,
  refl,
  made-NewResource file_res 4 0 (pos 0) opened refl,
  refl,
  refl,
)

copied_closes : (close (pos 0)).ensures copied (pos 0) (freed copied 3)
unfolding close register find
copied_closes = inl ((3, refl, refl), refl)

opened-IsOpen : IsOpen opened (pos 0)
opened-IsOpen = (open_file-least ab start 0 opened start-Inv opens).0

dup-close_example :
    (find_file_resource opened (pos 1) ≡ none)
    × IsOpen copied (pos 1)
    × (find_file_resource (freed copied 3) (pos 1) ≡ none)
dup-close_example =
    dup-close (pos 0) opened (pos 1) copied (pos 0) (freed copied 3) opened-IsOpen dups
      (ground arith) copied_closes refl

abbrev placed : World
placed = registered_at (made file_res 4 0 (pos 0) opened) 4 5

dups2 : (dup2 (pos 0) (pos 5)).ensures opened (pos 5) placed
unfolding dup2 register find
dups2 = inl (
  (λ h. h),
  (4, made file_res 4 0 (pos 0) opened, made-NewResource file_res 4 0 (pos 0) opened refl, refl),
  refl,
)

placed_closes : (close (pos 0)).ensures placed (pos 0) (freed placed 3)
unfolding close register register_at find
placed_closes = inl ((3, refl, refl), refl)

unused : find opened.table 5 ≡ none
unfolding find register
unused = refl
