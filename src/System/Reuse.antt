-- ===== src/System/Reuse.antt =====
-- Which descriptor a call gives, and when it stands for a file.
use mathlib.Core.Path.{◌≡◌}
use mopsa_ocaml.Prelude.{ℕ, ℤ, pos, negsuc, ◌≤◌, ◌<◌, refl, sym, ◌≢◌, inl, inr, arith, none, some}
use mopsa_ocaml.Stub.Memory.{Ptr}
use mopsa_ocaml.System.Table.{Table, find, register, register_at}
use mopsa_ocaml.System.Lookup.{
  find-register, find-register_at, find-remove, register-find, register-free, register-least,
}
use mopsa_ocaml.System.World.{
  World, file_res, registered, freed, find_file_resource, IsOpen, minus_one, smallest_free,
}
use mopsa_ocaml.System.Descriptors.{open_file, close, dup, dup2}
use mopsa_ocaml.System.Invariant.{Inv, Opened, freed-Inv}
use mopsa_ocaml.System.Invariant.Outcomes.{new-Opened, kept-Opened}
use mopsa_ocaml.System.Roundtrip.{open_file-Opens, close-Closes}

below-IsOpen : (w : World) (f i : ℕ) → Inv w → i < (register w.table f).0 → IsOpen w (pos i)
below-IsOpen w f i inv low =
    let (g, found) = register-least w.table f i low in rw found (inv i g found)

-- If every descriptor stands for a live FileRes resource and open returns a descriptor that is not
-- negative, then that descriptor was free and is open now, every smaller one was open, and all
-- others stand for what they stood for.
pub open_file-least :
    (name : Ptr) (w : World) (fd : ℕ) (w' : World)
    → Inv w
    → (open_file name).ensures w (pos fd) w'
    → IsOpen w' (pos fd)
      × (find w.table fd ≡ none)
      × ((i : ℕ) → i < fd → IsOpen w (pos i))
      × ((i : ℕ) → i ≢ fd → find w'.table i ≡ find w.table i)
open_file-least name w fd w' inv outcome =
    let (f, w1, new, e, e_fd) = open_file-Opens name w (pos fd) w' outcome (ground arith) in
    let plain : fd ≡ (register w1.table f).0 = ground (arith, e_fd) in
    let least : fd ≡ (register w.table f).0 = rw new.same_table at plain in
    rw (e, new.same_table, least)
      (
        rw (register-find w.table f) (new.new_kind, new.new_memory.now_alive),
        register-free w.table f,
        (λ i low. below-IsOpen w f i inv low),
        λ i apart. rw (find-register w.table f i) ground arith,
      )

freed_gone :
    (w : World) (f : ℕ) (fd : ℤ)
    → w.kind f ≡ file_res
    → find_file_resource w fd ≡ some f
    → find_file_resource (freed w f) fd ≡ none
freed_gone w f (pos fd) kind found = ground (arith, find-remove w.table f fd)
freed_gone w f (negsuc fd) kind found = refl

-- A descriptor of another file.
freed_kept :
    (w : World) (f g : ℕ) (fd : ℤ)
    → Opened w g
    → g ≢ f
    → find_file_resource w fd ≡ some g
    → IsOpen (freed w f) fd
freed_kept w f g (pos fd) opened apart found = ground (arith, find-remove w.table f fd)
freed_kept w f g (negsuc fd) opened apart found = absurd (ground arith)

-- If every descriptor stands for a live FileRes resource, close of a descriptor returns 0, and open
-- then returns a descriptor that is not negative, it is at most the one that was closed.
close-open_file :
    (fd : ℕ) (w : World) (w1 : World) (name : Ptr) (r : ℕ) (w2 : World)
    → Inv w
    → (close (pos fd)).ensures w (pos 0) w1
    → (open_file name).ensures w1 (pos r) w2
    → r ≤ fd
close-open_file fd w w1 name r w2 inv closes opens =
    let (f, found, e) = close-Closes (pos fd) w (pos 0) w1 closes refl in
    let gone : find w1.table fd ≡ none = rw e (freed_gone w f (pos fd) (inv fd f found).0 found) in
    let after : Inv w1 = rw e (freed-Inv w f inv) in
    let least = open_file-least name w1 r w2 after opens in
    let closed : ¬ (fd < r) = λ low. rw gone at (least.2 fd low) in omega (arith, closed)

registered_kept :
    (w : World) (f : ℕ) (fd : ℤ) (g : ℕ)
    → find_file_resource w fd ≡ some g
    → find_file_resource (registered w f) fd ≡ some g
registered_kept w f (pos fd) g found =
    ground (arith, find-register w.table f fd, register-free w.table f)
registered_kept w f (negsuc fd) g found = found

-- If dup of an open descriptor returns a descriptor other than -1, that one was free before and is
-- open after dup; and if close of the first then returns 0, the second stands for no file any more.
pub dup-close :
    (fd : ℤ) (w : World) (r : ℤ) (w1 : World) (r2 : ℤ) (w2 : World)
    → IsOpen w fd
    → (dup fd).ensures w r w1
    → r ≢ minus_one
    → (close fd).ensures w1 r2 w2
    → r2 ≡ pos 0
    → (find_file_resource w r ≡ none) × IsOpen w1 r × (find_file_resource w2 r ≡ none)
unfolding dup
dup-close fd w r w1 r2 w2 opened (inr e) ok closes done = absurd (ok e.1)
dup-close fd w r w1 r2 w2 opened (inl (f, f2, w0, found, new, e, e_fd)) ok closes done =
    let (g, found2, e2) = close-Closes fd w1 r2 w2 closes done in
    let opened_f = kept-Opened fd f f2 w w0 opened found new in
    let still = registered_kept w0 f fd f (rw new.same_table found) in
    let same : g ≡ f = ground (arith, still, rw e at found2) in
    rw e_fd (
      rw new.same_table (register-free w.table f),
      rw (e, register-find w0.table f) opened_f,
      rw (e2, same, e)
          (freed_gone (registered w0 f) f (smallest_free w0 f) opened_f.0
            (register-find w0.table f)),
    )

-- What a descriptor stood for before another one was made to stand for a new file.
before_register_at :
    (w : World) (t : Table) (f fd fd2 g : ℕ)
    → t ≡ w.table
    → IsOpen w (pos fd)
    → find w.table fd2 ≡ none
    → find (register_at t f fd2) fd ≡ some g
    → find w.table fd ≡ some g
before_register_at w t f fd fd2 g same opened unused found =
    ground (arith, find-register_at t f fd2 fd)

-- If every descriptor stands for a live FileRes resource, one is open and another is free, dup2
-- from the first returns the second, and close of the first then returns 0, then the first is not
-- open and the second is.
dup2-close :
    (fd fd2 : ℕ) (w w1 w2 : World)
    → Inv w
    → IsOpen w (pos fd)
    → find w.table fd2 ≡ none
    → (dup2 (pos fd) (pos fd2)).ensures w (pos fd2) w1
    → (close (pos fd)).ensures w1 (pos 0) w2
    → (¬ IsOpen w2 (pos fd)) × IsOpen w2 (pos fd2)
unfolding dup2
dup2-close fd fd2 w w1 w2 inv opened unused (inl (_, (f, w0, new, e), _)) closes =
    let (g, found, e2) = close-Closes (pos fd) w1 (pos 0) w2 closes refl in
    let was =
      before_register_at w w0.table f fd fd2 g new.same_table opened unused (rw e at found) in
    let opened_g = kept-Opened (pos fd) g f w w0 opened was new in
    let apart : g ≢ f = ground (arith, (inv fd g was).1, new.new_memory.fresh) in
    rw e2 (
      (λ still. rw (freed_gone w1 g (pos fd) (rw e opened_g.0) found) at still),
      freed_kept w1 g f (pos fd2) (rw e (new-Opened f w w0 new)) (λ h. apart (sym h))
          (rw (e, find-register_at w0.table f fd2 fd2) ground arith),
    )
dup2-close fd fd2 w w1 w2 inv opened unused (inr (inl e)) closes = absurd (ground (arith, e.0))
dup2-close fd fd2 w w1 w2 inv opened unused (inr (inr e)) closes = absurd (ground (arith, e.1))
