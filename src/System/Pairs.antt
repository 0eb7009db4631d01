-- ===== src/System/Pairs.antt =====
-- The two descriptors of socketpair.
use mathlib.Core.Path.{◌≡◌}
use mopsa_ocaml.Prelude.{ℕ, pos, ◌≢◌, true, some, none, inl, inr, ◌∙◌, arith}
use mopsa_ocaml.Stub.Memory.{Ptr}
use mopsa_ocaml.Stub.Wide.Chars.{wchar}
use mopsa_ocaml.System.Table.{Table, register, find}
use mopsa_ocaml.System.Lookup.{find-register, register-find, register-free}
use mopsa_ocaml.System.World.{World, file_res, IsOpen, NewResource}
use mopsa_ocaml.System.Sockets.{socketpair}

-- The first of two new resources is another one than the second, and stays.
two_resources :
    (f0 f1 : ℕ) (w w1 w2 : World)
    → NewResource file_res f0 w w1
    → NewResource file_res f1 w1 w2
    → (f0 ≢ f1) × (w2.kind f0 ≡ file_res) × (w2.memory.alive f0 ≡ true) × (w2.table ≡ w.table)
two_resources f0 f1 w w1 w2 first second =
    let apart : f0 ≢ f1 = λ e.
      let dead = second.new_memory.fresh in
      let live = rw e at first.new_memory.now_alive in ground arith in
    (
      apart,
      second.same_kind f0 apart ∙ first.new_kind,
      second.new_memory.same_alive f0 apart ∙ first.new_memory.now_alive,
      second.same_table ∙ first.same_table,
    )

-- Two registrations, one after the other.
register-register :
    (t : Table) (f0 f1 : ℕ)
    → ((register t f0).0 ≢ (register (register t f0).1 f1).0)
      × (find t (register (register t f0).1 f1).0 ≡ none)
      × (find (register (register t f0).1 f1).1 (register t f0).0 ≡ some f0)
      × ((i : ℕ)
          → i ≢ (register t f0).0
          → i ≢ (register (register t f0).1 f1).0
          → find (register (register t f0).1 f1).1 i ≡ find t i)
register-register t f0 f1 =
    let t1 = (register t f0).1 in
    let gone = register-free t1 f1 in
    let here = register-find t f0 in
    let apart : (register t f0).0 ≢ (register (register t f0).1 f1).0 =
      λ e. let both = rw e at here in ground arith in
    (
      apart,
      ground (arith, find-register t f0 (register t1 f1).0),
      ground (arith, find-register t1 f1 (register t f0).0),
      λ i h0 h1. ground (arith, find-register t f0 i, find-register t1 f1 i),
    )

-- If socketpair returns 0, then it stores two different descriptors that were not registered
-- before, both are open afterwards, and every other descriptor stands for what it stood for.
pub socketpair-IsOpen :
    (fds : Ptr) (w w' : World)
    → (socketpair fds).ensures w (pos 0) w'
    → (fd0 fd1 : ℕ) × (wchar w'.memory fds 0 ≡ pos fd0)
      × (wchar w'.memory fds 1 ≡ pos fd1)
      × (fd0 ≢ fd1)
      × (find w.table fd0 ≡ none)
      × (find w.table fd1 ≡ none)
      × IsOpen w' (pos fd0)
      × IsOpen w' (pos fd1)
      × ((i : ℕ) → i ≢ fd0 → i ≢ fd1 → find w'.table i ≡ find w.table i)
unfolding socketpair
socketpair-IsOpen fds w w' (inr (_, e)) = absurd (ground (arith, e))
socketpair-IsOpen fds w w' (inl ((f0, f1, w1, w2, new0, new1, (m, assigned, e), s0, s1), _)) =
    let (apart, kind0, live0, same) = two_resources f0 f1 w w1 w2 new0 new1 in
    let (differ, free1, found0, others) = register-register w.table f0 f1 in
    let first = rw same at s0 in
    let second = rw same at s1 in
    (
      (register w.table f0).0,
      (register (register w.table f0).1 f1).0,
      first,
      second,
      differ,
      register-free w.table f0,
      free1,
      rw (e, same, found0) (kind0, assigned.same_alive f0 ∙ live0),
      rw (e, same, register-find (register w.table f0).1 f1)
          (new1.new_kind, assigned.same_alive f1 ∙ new1.new_memory.now_alive),
      λ i h0 h1. rw (e, same) (others i h0 h1),
    )
