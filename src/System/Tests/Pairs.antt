-- ===== src/System/Tests/Pairs.antt =====
-- A pair of sockets in a world without descriptors, stored where a string was.
use mathlib.Core.Path.{◌≡◌}
use mopsa_ocaml.Prelude.{ℕ, pos, ◌≢◌, refl, inl, none, ◌==◌, if◌then◌else◌}
use mopsa_ocaml.Stub.Memory.{Memory}
use mopsa_ocaml.Stub.Overwrite.{overwrite, overwrite-Assigns}
use mopsa_ocaml.Stub.Sample.{ab}
use mopsa_ocaml.Stub.Wide.Chars.{wchar}
use mopsa_ocaml.System.Table.{find, register}
use mopsa_ocaml.System.World.{World, file_res, IsOpen, registered}
use mopsa_ocaml.System.Sockets.{socketpair}
use mopsa_ocaml.System.Pairs.{socketpair-IsOpen}
use mopsa_ocaml.System.Tests.{start, with_file, made, made-NewResource}

abbrev with_files : World
with_files = made file_res 4 0 (pos 0) with_file

-- The ints 0 and 1, one after the other.
abbrev stored : Memory
stored = overwrite with_files.memory ab 8 λ i. if i == 4 then 1 else 0

abbrev paired : World
paired = record (registered (registered with_files 3) 4) { memory = stored }

pairs : (socketpair ab).ensures start (pos 0) paired
unfolding socketpair register
pairs = inl (
  (
    3,
    4,
    with_file,
    with_files,
    made-NewResource file_res 3 0 (pos 0) start refl,
    made-NewResource file_res 4 0 (pos 0) with_file refl,
    (stored, overwrite-Assigns with_files.memory ab 8 (λ i. if i == 4 then 1 else 0), refl),
    refl,
    refl,
  ),
  refl,
)

socketpair-IsOpen_example :
    (fd0 fd1 : ℕ) × (wchar paired.memory ab 0 ≡ pos fd0)
    × (wchar paired.memory ab 1 ≡ pos fd1)
    × (fd0 ≢ fd1)
    × (find start.table fd0 ≡ none)
    × (find start.table fd1 ≡ none)
    × IsOpen paired (pos fd0)
    × IsOpen paired (pos fd1)
    × ((i : ℕ) → i ≢ fd0 → i ≢ fd1 → find paired.table i ≡ find start.table i)
socketpair-IsOpen_example = socketpair-IsOpen ab start paired pairs
