-- ===== src/System/Roundtrip/Streams.antt =====
-- Streams that are opened and closed.
use mathlib.Core.Path.{◌≡◌}
use mopsa_ocaml.Prelude.{ℕ, ℤ, ◌≢◌, inl, inr, true, ◌∙◌, arith, some}
use mopsa_ocaml.Stub.Memory.{Ptr, null}
use mopsa_ocaml.System.Lookup.{find-remove, register-find}
use mopsa_ocaml.System.World.{World, Headers, file, registered, freed, find_file_resource}
use mopsa_ocaml.System.Heap.{base}
use mopsa_ocaml.System.Streams.{OpensStream, fopen, fclose, freed_file}
use mopsa_ocaml.System.Invariant.{Inv}
use mopsa_ocaml.System.Roundtrip.{Restored, block-Restored, file-Restored}

Restored-trans : (w w1 w2 : World) → Restored w w1 → Restored w1 w2 → Restored w w2
Restored-trans w w1 w2 a b = record {
  same_table = λ fd. b.same_table fd ∙ a.same_table fd;
  same_alive = λ c. b.same_alive c ∙ a.same_alive c;
  same_kind = λ c live. b.same_kind c (a.same_alive c ∙ live) ∙ a.same_kind c live;
  same_size = λ c live. b.same_size c (a.same_alive c ∙ live) ∙ a.same_size c live;
  same_cell = λ c o live. b.same_cell c o (a.same_alive c ∙ live) ∙ a.same_cell c o live;
}

-- Freeing the same resource in two worlds that agree.
freed-Restored :
    (w w' : World) (f : ℕ)
    → Restored w w'
    → w.memory.alive f ≡ true
    → Restored (freed w f) (freed w' f)
freed-Restored w w' f h live = record {
  same_table = λ fd. ground (
    arith,
    h.same_kind f live,
    h.same_table fd,
    find-remove w.table f fd,
    find-remove w'.table f fd,
  );
  same_alive = λ c. ground (arith, h.same_alive c);
  same_kind = λ c alive. ground (arith, h.same_kind c);
  same_size = λ c alive. ground (arith, h.same_size c);
  same_cell = λ c o alive. ground (arith, h.same_cell c o);
}

module _ (sys : Headers) where
  pub fopen-OpensStream :
      (name modes : Ptr) (w : World) (r : Ptr) (w' : World)
      → (fopen sys name modes).ensures w r w'
      → r ≢ null
      → OpensStream sys w r w'
  unfolding fopen
  fopen-OpensStream name modes w r w' (inl e) ok = e
  fopen-OpensStream name modes w r w' (inr e) ok = absurd (ok e.1)

  pub fclose-freed :
      (s : Ptr) (w : World) (r : ℤ) (w' : World)
      → (fclose sys s).ensures w r w'
      → r ≢ sys.eof
      → w' ≡ freed_file (freed w (base s)) (find_file_resource w (w.fileno (base s)))
  unfolding fclose
  fclose-freed s w r w' (inl e) ok = e.0
  fclose-freed s w r w' (inr e) ok = absurd (ok e.1)

  -- If every descriptor stands for a live FileRes resource and fopen returns a stream that is not
  -- null, then fclose's requirement holds for it; and if fclose of it returns a value other than
  -- EOF, every descriptor stands for what it stood for before fopen, the same blocks are alive, and
  -- those have the kinds, sizes and contents they had.
  pub fopen-fclose :
      (name modes : Ptr) (w : World) (s : Ptr) (w1 : World) (r : ℤ) (w2 : World)
      → Inv w
      → (fopen sys name modes).ensures w s w1
      → s ≢ null
      → (fclose sys s).ensures w1 r w2
      → r ≢ sys.eof
      → (fclose sys s).requires w1 × Restored w w2
  unfolding fclose
  fopen-fclose name modes w s w1 r w2 inv opens ok closes done =
      let (f, w0, new, (b, stream, _, e_fd, e)) = fopen-OpensStream name modes w s w1 opens ok in
      let found : find_file_resource w1 (w1.fileno (base s)) ≡ some f =
        rw (e, e_fd, stream.same_table) (register-find w0.table f) in
      rw (fclose-freed s w1 r w2 closes done, found, e)
        (
          (stream.new_kind, stream.new_memory.now_alive),
          Restored-trans w (freed (registered w0 f) f) (freed (freed w1 b) f)
              (file-Restored f w w0 new inv)
              (freed-Restored (registered w0 f) (freed w1 b) f
                (block-Restored file b (registered w0 f) w1 (ground arith) stream)
                new.new_memory.now_alive),
        )
