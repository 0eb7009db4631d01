-- ===== src/System/Invariant/Outcomes.antt =====
-- The invariant over what contracts of several stubs share.
use mathlib.Core.Path.{◌≡◌}
use mopsa_ocaml.Prelude.{ℕ, ℤ, pos, negsuc, some, arith}
use mopsa_ocaml.Stub.Memory.{Ptr}
use mopsa_ocaml.Stub.Contract.{AssignsErrno}
use mopsa_ocaml.System.World.{
  World, Headers, file_res, Errno, NewResource, registered, registered_at, IsOpen,
  find_file_resource,
}
use mopsa_ocaml.System.Heap.{Allocated}
use mopsa_ocaml.System.Descriptors.{Opens, RegistersAt}
use mopsa_ocaml.System.Streams.{OpensStream, OpensStreamAt}
use mopsa_ocaml.System.Invariant.{
  Inv, Opened, OnMemory-Inv, new-Inv, registered-Inv, registered_at-Inv,
}

pub Errno-Inv : (w w' : World) → Errno w w' → Inv w → Inv w'
Errno-Inv w w' e = OnMemory-Inv w w' AssignsErrno (λ m m' p. p.same_alive) e

pub same-Inv : (w w' : World) → w' ≡ w → Inv w → Inv w'
same-Inv w w' e inv = rw e inv

pub new-Opened : (f : ℕ) (w w' : World) → NewResource file_res f w w' → Opened w' f
new-Opened f w w' new = (new.new_kind, new.new_memory.now_alive)

pub Opens-Inv : (w : World) (r : ℤ) (w' : World) → Opens w r w' → Inv w → Inv w'
Opens-Inv w r w' (f, w1, new, e, _) inv =
    rw e (registered-Inv w1 f (new-Opened f w w1 new) (new-Inv file_res f w w1 new inv))

pub Allocated-Inv :
    (size : ℕ) (w : World) (r : Ptr) (w' : World) → Allocated size w r w' → Inv w → Inv w'
Allocated-Inv size w r w' (b, new, _, _) = new-Inv _ b w w' new

pub OpensStream-Inv :
    (sys : Headers) (w : World) (r : Ptr) (w' : World) → OpensStream sys w r w' → Inv w → Inv w'
OpensStream-Inv sys w r w' (f, w1, new, (b, stream, _, _, _)) inv =
    new-Inv _ b (registered w1 f) w' stream
      (registered-Inv w1 f (new-Opened f w w1 new) (new-Inv file_res f w w1 new inv))

pub OpensStreamAt-Inv :
    (sys : Headers) (fd : ℕ) (w : World) (r : Ptr) (w' : World)
    → OpensStreamAt sys fd w r w'
    → Inv w
    → Inv w'
OpensStreamAt-Inv sys fd w r w' (f, w1, new, (b, stream, _, _, _)) inv =
    new-Inv _ b (registered_at w1 f fd) w' stream
      (registered_at-Inv w1 f fd (new-Opened f w w1 new) (new-Inv file_res f w w1 new inv))

-- A resource that was open still is after another is made.
pub kept-Opened :
    (fd : ℤ) (f g : ℕ) (w w' : World)
    → IsOpen w fd
    → find_file_resource w fd ≡ some f
    → NewResource file_res g w w'
    → Opened w' f
kept-Opened fd f g w w' req found new =
    ground (arith, new.new_memory.fresh, new.new_memory.same_alive f, new.same_kind f)

pub RegistersAt-Inv :
    (fd : ℤ) (f : ℕ) (w w' : World) → RegistersAt fd f w w' → Opened w f → Inv w → Inv w'
RegistersAt-Inv (pos fd) f w w' e new inv = rw e (registered_at-Inv w f fd new inv)
RegistersAt-Inv (negsuc fd) f w w' e new inv = absurd e
