-- ===== src/System/Closing.antt =====
-- What closing a stream does to its descriptor, and how all descriptors are closed.
use mathlib.Core.Path.{◌≡◌}
use mopsa_ocaml.Prelude.{
  ℕ, zero, suc, ℤ, pos, negsuc, ◌≤◌, refl, ◌≢◌, inl, inr, arith, [], ◌∷◌, Option, none, some,
  Option-cases,
}
use mopsa_ocaml.Stub.Memory.{Ptr, null, invalid, at, Memory}
use mopsa_ocaml.System.Table.{Table, find, register}
use mopsa_ocaml.System.Lookup.{find-remove, register-find, register-free}
use mopsa_ocaml.System.World.{
  World, Headers, file, file_res, IsFreeable, NewResource, registered, freed, find_file_resource,
  IsOpen,
}
use mopsa_ocaml.System.Heap.{base}
use mopsa_ocaml.System.Descriptors.{close}
use mopsa_ocaml.System.Streams.{fclose, popen, pclose, fileno, freed_file}
use mopsa_ocaml.System.Steps.{Step, call_close, Reach, stop, after}
use mopsa_ocaml.System.Invariant.{Inv, Opened, freed-Inv}
use mopsa_ocaml.System.Invariant.Outcomes.{new-Opened}
use mopsa_ocaml.System.Roundtrip.Streams.{fclose-freed}

stream_dead : (w : World) (s : Ptr) → ¬ IsFreeable (freed w (base s)) file s
stream_dead w (at b o) live = ground (arith, live.1)
stream_dead w null live = live
stream_dead w invalid live = live

-- A stream and its descriptor.
freed_file-gone :
    (w : World) (s : Ptr) (fd : ℤ)
    → Inv w
    → IsFreeable w file s
    → let w' = freed_file (freed w (base s)) (find_file_resource w fd) in
      (¬ IsFreeable w' file s) × (find_file_resource w' fd ≡ none)
freed_file-gone w null fd inv live = absurd live
freed_file-gone w invalid fd inv live = absurd live
freed_file-gone w (at b o) (negsuc fd) inv live = (stream_dead w (at b o), refl)
freed_file-gone w (at b o) (pos fd) inv live = elim (Option-cases (find w.table fd)) [
  | inl e ↦ rw e (stream_dead w (at b o), ground (arith, live.0))
  | inr (f, e) ↦
      rw e (ground arith, ground (arith, live.0, (inv fd f e).0, find-remove w.table f fd))
]

-- A descriptor of another file.
other-kept :
    (w : World) (s : Ptr) (fd : ℤ) (i : ℕ)
    → IsFreeable w file s
    → find_file_resource w fd ≢ find w.table i
    → find (freed_file (freed w (base s)) (find_file_resource w fd)).table i ≡ find w.table i
other-kept w null fd i live apart = absurd live
other-kept w invalid fd i live apart = absurd live
other-kept w (at b o) (negsuc fd) i live apart = ground (arith, live.0)
other-kept w (at b o) (pos fd) i live apart = elim (Option-cases (find w.table fd)) [
  | inl e ↦ rw e ground (arith, live.0)
  | inr (f, e) ↦ rw e ground (arith, live.0, rw e at apart, find-remove w.table f i)
]

new-Opened_other : (f b : ℕ) (w w' : World) → NewResource file b w w' → Opened w f → Opened w' f
new-Opened_other f b w w' new opened =
    ground (arith, opened, new.new_memory.fresh, new.new_memory.same_alive f, new.same_kind f)

-- A descriptor whose stream is freed.
left-IsOpen :
    (w : World) (m : Memory) (b f n : ℕ)
    → w.kind b ≡ file
    → find w.table n ≡ some f
    → Opened w f
    → m.alive f ≡ w.memory.alive f
    → IsOpen (freed (record w { memory = m }) b) (pos n)
left-IsOpen w m b f n kind found opened same = ground (arith, opened)

module _ (sys : Headers) where
  -- If every descriptor stands for a live FileRes resource, fclose's requirement holds for a
  -- stream, fileno gives a descriptor for it, and fclose of it returns a value other than EOF, then
  -- fclose's requirement holds for it no more, the descriptor stands for nothing, and every
  -- descriptor that stood for something else than it does still.
  fclose-fileno :
      (s : Ptr) (w : World) (fd : ℤ) (r : ℤ) (w' : World)
      → Inv w
      → (fclose sys s).requires w
      → (fileno s).ensures w fd w
      → (fclose sys s).ensures w r w'
      → r ≢ sys.eof
      → (¬ (fclose sys s).requires w')
        × (find_file_resource w' fd ≡ none)
        × ((i : ℕ) → find_file_resource w fd ≢ find w.table i → find w'.table i ≡ find w.table i)
  unfolding fclose fileno
  fclose-fileno s w fd r w' inv live named outcome ok =
      let (dead, gone) = freed_file-gone w s fd inv live in
      rw (fclose-freed sys s w r w' outcome ok, ← named.1)
        (dead, gone, λ i. other-kept w s fd i live)

  -- If popen returns a stream that is not null and fileno gives a descriptor for it, then that
  -- descriptor was free before; and after pclose of the stream pclose's requirement holds for it no
  -- more, while the descriptor is open still.
  pub popen-pclose :
      (command modes : Ptr) (w : World) (p : Ptr) (w1 : World) (fd r : ℤ) (w2 : World)
      → (popen sys command modes).ensures w p w1
      → p ≢ null
      → (fileno p).ensures w1 fd w1
      → (pclose p).ensures w1 r w2
      → (find_file_resource w fd ≡ none) × (¬ (pclose p).requires w2) × IsOpen w2 fd
  unfolding popen pclose fileno
  popen-pclose command modes w p w1 fd r w2 (inr e) ok named closes = absurd (ok e.1)
  popen-pclose command modes w p w1 fd r w2 (inl (f, w0, new, (b, stream, _, e_fd, e))) ok named
        (w3, (m, errno, e3), e2) =
      let found : find w1.table (register w0.table f).0 ≡ some f =
        rw stream.same_table (register-find w0.table f) in
      let opened = new-Opened_other f b (registered w0 f) w1 stream (new-Opened f w w0 new) in
      rw (named.1, e, e_fd)
        (
          rw new.same_table (register-free w.table f),
          rw (e2, e) (stream_dead w3 (at b (pos 0))),
          rw (e2, e3, e) (left-IsOpen w1 m b f _ stream.new_kind found opened (errno.same_alive f)),
        )

-- The descriptors from here on stand for no file.
abbrev None : World → ℕ → Type 0
None w n = (fd : ℕ) → n ≤ fd → find w.table fd ≡ none

beyond :
    (x : Option ℕ) (t : Table) (n : ℕ)
    → ((fd : ℕ) → n ≤ fd → find t fd ≡ none)
    → (fd : ℕ) → suc n ≤ fd
    → find (x ∷ t) fd ≡ none
unfolding find
beyond x t n rest zero low = absurd (omega arith)
beyond x t n rest (suc fd) low = rest fd (omega arith)

find-none : (t : Table) → (n : ℕ) × ((fd : ℕ) → n ≤ fd → find t fd ≡ none)
unfolding find
find-none [] = (0, λ fd low. refl)
find-none (x ∷ t) = let (n, rest) = find-none t in (suc n, beyond x t n rest)

-- Calls lead to a world without descriptors, in which all other resources are as they were.
pub record Drained (sys : Headers) (w w' : World) : Type 0 where
  pub path : Reach sys w w'
  pub all_closed : (fd : ℕ) → find w'.table fd ≡ none
  pub same_kind : (b : ℕ) → w'.kind b ≡ w.kind b
  pub same_alive : (b : ℕ) → w.kind b ≢ file_res → w'.memory.alive b ≡ w.memory.alive b

module _ (sys : Headers) where
  first : (w w1 w2 : World) → Step sys w w1 → Reach sys w1 w2 → Reach sys w w2
  first w w1 _ step stop = after stop step
  first w w1 w2 step (after {w1 = w3} path last) = after (first w w1 w3 step path) last

  close_call : (w : World) (n f : ℕ) → Inv w → find w.table n ≡ some f → Step sys w (freed w f)
  unfolding close
  close_call w n f inv found =
      call_close (pos n) (rw found (inv n f found), (pos 0, inl ((f, found, refl), refl)))

  close_first :
      (w w' : World) (n f : ℕ)
      → Inv w
      → find w.table n ≡ some f
      → Drained sys (freed w f) w'
      → Drained sys w w'
  close_first w w' n f inv found rest = record {
    path = first w (freed w f) w' (close_call w n f inv found) rest.path;
    all_closed = rest.all_closed;
    same_kind = rest.same_kind;
    same_alive = λ b apart. ground (arith, rest.same_alive b apart, (inv n f found).0);
  }

  drain : (n : ℕ) (w : World) → Inv w → None w n → (w' : World) × Drained sys w w'
  drain zero w inv gone = (
    w,
    record {
      path = stop;
      all_closed = λ fd. gone fd (omega arith);
      same_kind = λ b. refl;
      same_alive = λ b apart. refl;
    },
  )
  drain (suc n) w inv gone = elim (Option-cases (find w.table n)) [
    | inl e ↦ drain n w inv (λ fd low. ground (arith, gone fd))
    | inr (f, e) ↦
        let (w', rest) =
          drain n (freed w f) (freed-Inv w f inv)
            (λ fd low. ground (arith, gone fd, (inv n f e).0, find-remove w.table f fd)) in
        (w', close_first w w' n f inv e rest)
  ]

  -- From every world whose descriptors all stand for live FileRes resources, a sequence of calls
  -- whose requirements hold leads to a world in which no descriptor stands for a resource, all
  -- resources have the kinds they had, and all that are not FileRes are alive or dead as they were.
  pub close_all : (w : World) → Inv w → (w' : World) × Drained sys w w'
  close_all w inv = let (n, gone) = find-none w.table in drain n w inv gone
