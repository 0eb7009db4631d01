-- ===== src/System/Roundtrip/Blocks.antt =====
-- Blocks of memory that are allocated and freed.
use mathlib.Core.Path.{◌≡◌}
use mopsa_ocaml.Prelude.{ℕ, ◌+◌, pos, negsuc, refl, ◌≤◌, ◌<◌, ◌≢◌, inl, inr, true, false, arith}
use mopsa_ocaml.Stub.Memory.{Ptr, null, invalid, at, ValidPtr, Forall, byte}
use mopsa_ocaml.System.World.{World, heap, IsFreeable, freed}
use mopsa_ocaml.System.Heap.{Allocated, Resized, base, size_of, malloc, realloc, free}
use mopsa_ocaml.System.Roundtrip.{Restored, block-Restored}

pub malloc-Allocated :
    (n : ℕ) (w : World) (r : Ptr) (w' : World)
    → (malloc n).ensures w r w'
    → r ≢ null
    → Allocated n w r w'
unfolding malloc
malloc-Allocated n w r w' (inl e) ok = e
malloc-Allocated n w r w' (inr (inl e)) ok = absurd (ok e.1)
malloc-Allocated n w r w' (inr (inr e)) ok = absurd (ok e.2)

pub free-freed :
    (p : Ptr) (w : World) (r : Unit {0}) (w' : World)
    → (free p).ensures w r w'
    → p ≢ null
    → w' ≡ freed w (base p)
unfolding free
free-freed p w r w' (inl e) ok = absurd (ok e.0)
free-freed p w r w' (inr e) ok = e.1

-- If malloc returns a pointer that is not null, then free's requirements hold for it, and after
-- free of it every descriptor stands for what it stood for before malloc, the same blocks are
-- alive, and those have the kinds, sizes and contents they had.
pub malloc-free :
    (n : ℕ) (w : World) (p : Ptr) (w1 : World) (r : Unit {0}) (w2 : World)
    → (malloc n).ensures w p w1
    → p ≢ null
    → (free p).ensures w1 r w2
    → (free p).requires w1 × Restored w w2
unfolding free
malloc-free n w p w1 r w2 made ok frees =
    let (b, new, _, e) = malloc-Allocated n w p w1 made ok in
    rw (free-freed p w1 r w2 frees ok, e)
      (
        (λ _. ((new.new_kind, new.new_memory.now_alive), refl)),
        block-Restored heap b w w1 (ground arith) new,
      )

-- A pointer into a block that is freed.
freed_dead : (w : World) (b : ℕ) (q : Ptr) → base q ≡ b → ¬ ValidPtr (freed w b).memory q
freed_dead w b (at c (pos o)) e v = ground (arith, v.0)
freed_dead w b (at c (negsuc o)) e v = v
freed_dead w b null e v = v
freed_dead w b invalid e v = v

freed_unfreeable : (w : World) (b : ℕ) (q : Ptr) → base q ≡ b → ¬ IsFreeable (freed w b) heap q
freed_unfreeable w b (at c o) e v = ground (arith, v.1)
freed_unfreeable w b null e v = v
freed_unfreeable w b invalid e v = v

-- After free of a pointer that is not null, no pointer into its block is valid, and for none that
-- is not null do the requirements of free or of realloc hold.
free-dead :
    (p : Ptr) (w : World) (r : Unit {0}) (w' : World) (q : Ptr)
    → (free p).ensures w r w'
    → p ≢ null
    → base q ≡ base p
    → q ≢ null
    → (¬ ValidPtr w'.memory q) × (¬ (free q).requires w') × ((n : ℕ) → ¬ (realloc q n).requires w')
unfolding free realloc
free-dead p w r w' q frees ok same not_null = rw (free-freed p w r w' frees ok) (
  freed_dead w (base p) q same,
  (λ req. freed_unfreeable w (base p) q same (req not_null).0),
  λ n req. freed_unfreeable w (base p) q same (req not_null),
)

realloc-Resized :
    (p : Ptr) (n : ℕ) (w : World) (r : Ptr) (w' : World)
    → (realloc p n).ensures w r w'
    → p ≢ null
    → r ≢ null
    → Resized p n w r w'
unfolding realloc
realloc-Resized p n w r w' (inl e) p_ok ok = absurd (p_ok e.0)
realloc-Resized p n w r w' (inr (inl e)) p_ok ok = absurd (p_ok e.0)
realloc-Resized p n w r w' (inr (inr (inl e))) p_ok ok = absurd (ok e.3)
realloc-Resized p n w r w' (inr (inr (inr (inl e)))) p_ok ok = e.2
realloc-Resized p n w r w' (inr (inr (inr (inr e)))) p_ok ok = absurd (ok e.1)

-- What a block that is resized is to the old one.
pub record Moved (p : Ptr) (n : ℕ) (w : World) (r : Ptr) (w' : World) : Type 0 where
  pub new_size : size_of w' r ≡ n
  pub new_alive : w'.memory.alive (base r) ≡ true
  pub old_dead : w'.memory.alive (base p) ≡ false
  pub same_alive : (c : ℕ) → c ≢ base p → c ≢ base r → w'.memory.alive c ≡ w.memory.alive c
  pub same_bytes : (i : ℕ) → i < n → i < size_of w p → byte w'.memory r i ≡ byte w.memory p i

-- Either half of what is ensured of a resized block.
resized_byte :
    (b n : ℕ) (w : World) (r : Ptr) (w1 : World) (i : ℕ)
    → w1.memory.size b ≡ w.memory.size b
    → byte w1.memory (at b (pos 0)) i ≡ byte w.memory (at b (pos 0)) i
    → (n ≤ w1.memory.size b
        → Forall 0 n (λ j. byte w1.memory r j ≡ byte w1.memory (at b (pos 0)) j))
    → (w1.memory.size b ≤ n
        → Forall 0 (w1.memory.size b) (λ j. byte w1.memory r j ≡ byte w1.memory (at b (pos 0)) j))
    → i < n
    → i < w.memory.size b
    → byte w1.memory r i ≡ byte w.memory (at b (pos 0)) i
resized_byte b n w r w1 i same_size same_byte less more low high =
    let short = λ (le : n ≤ w1.memory.size b). less le i (omega arith) low in
    let long = λ (le : w1.memory.size b ≤ n). more le i (omega arith) (omega arith) in
    ground (arith, short, long)

-- If realloc of the start of a live block returns a pointer that is not null, then that pointer's
-- block is alive and has the size asked for, the old block is not alive, all other blocks are alive
-- or dead as they were, and the bytes that lie within both sizes are the old block's.
pub realloc-Moved :
    (b n : ℕ) (w : World) (r : Ptr) (w' : World)
    → w.memory.alive b ≡ true
    → (realloc (at b (pos 0)) n).ensures w r w'
    → r ≢ null
    → Moved (at b (pos 0)) n w r w'
realloc-Moved b n w r w' live outcome ok =
    let (w1, (c, new, e_size, e), less, more, e2) =
      realloc-Resized (at b (pos 0)) n w r w' outcome (ground arith) ok in
    let apart : b ≢ c = ground (arith, new.new_memory.fresh) in
    rw (e2, e)
      record {
        new_size = e_size;
        new_alive = ground (arith, new.new_memory.fresh, new.new_memory.now_alive);
        old_dead = ground arith;
        same_alive = λ d. ground (arith, new.new_memory.same_alive d);
        same_bytes = λ i low high. rw e at (
            resized_byte b n w r w1 i (new.new_memory.same_size b apart)
              (new.new_memory.same_cell b (0 + i) apart) less more low high);
      }
