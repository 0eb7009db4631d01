-- ===== src/System/Tests/Streams.antt =====
-- A stream that is opened and closed.
use mathlib.Core.Path.{◌≡◌}
use mopsa_ocaml.Prelude.{pos, refl, inl, arith, none}
use mopsa_ocaml.Stub.Memory.{Ptr, at}
use mopsa_ocaml.Stub.Sample.{ab}
use mopsa_ocaml.System.Table.{find, register}
use mopsa_ocaml.System.World.{World, file, file_res, freed, find_file_resource, IsOpen}
use mopsa_ocaml.System.Descriptors.{open_file}
use mopsa_ocaml.System.Streams.{fopen, fclose, popen, pclose, fileno}
use mopsa_ocaml.System.Steps.{stop, after, call_fopen}
use mopsa_ocaml.System.Invariant.{Inv}
use mopsa_ocaml.System.Invariant.Run.{Reach-Inv}
use mopsa_ocaml.System.Roundtrip.{Restored}
use mopsa_ocaml.System.Roundtrip.Streams.{fopen-fclose}
use mopsa_ocaml.System.Closing.{popen-pclose}
use mopsa_ocaml.System.Tests.{
  headers, start, made, with_file, opened, made-NewResource, start-Inv, ab_string,
}

abbrev stream : Ptr
stream = at 4 (pos 0)

abbrev streaming : World
streaming = made file 4 216 (pos 0) opened

fopens : (fopen headers ab ab).ensures start stream streaming
unfolding fopen register
fopens = inl (
  3,
  with_file,
  made-NewResource file_res 3 0 (pos 0) start refl,
  (4, made-NewResource file 4 216 (pos 0) opened refl, refl, refl, refl),
)

abbrev stopped : World
stopped = freed (freed streaming 4) 3

fcloses : (fclose headers stream).ensures streaming (pos 0) stopped
unfolding fclose register find
fcloses = inl (refl, refl)

fopen-fclose_example : (fclose headers stream).requires streaming × Restored start stopped
fopen-fclose_example =
    fopen-fclose headers ab ab start stream streaming (pos 0) stopped start-Inv fopens
      (ground arith) fcloses (ground arith)

streaming-Inv : Inv streaming
unfolding fopen open_file
streaming-Inv =
    Reach-Inv headers start streaming
      (after stop (call_fopen ab ab ((ab_string, ab_string), (stream, fopens)))) start-Inv

streaming_named : (fileno stream).ensures streaming (pos 0) streaming
unfolding fileno
streaming_named = (refl, refl)

streaming_open : (fclose headers stream).requires streaming
unfolding fclose
streaming_open = (refl, refl)

popens : (popen headers ab ab).ensures start stream streaming
unfolding popen register
popens = inl (
  3,
  with_file,
  made-NewResource file_res 3 0 (pos 0) start refl,
  (4, made-NewResource file 4 216 (pos 0) opened refl, refl, refl, refl),
)

pcloses : (pclose stream).ensures streaming (pos 7) (freed streaming 4)
unfolding pclose
pcloses = (
  streaming,
  (
    streaming.memory,
    record { same_alive = λ b. refl; same_size = λ b. refl; same_cell = λ b o. refl },
    refl,
  ),
  refl,
)

popen-pclose_example :
    (find_file_resource start (pos 0) ≡ none)
    × (¬ (pclose stream).requires (freed streaming 4))
    × IsOpen (freed streaming 4) (pos 0)
popen-pclose_example =
    popen-pclose headers ab ab start stream streaming (pos 0) (pos 7) (freed streaming 4) popens
      (ground arith) streaming_named pcloses
