-- ===== src/Stub/Bytes/Copy.antt =====
-- memcpy, memmove and memccpy of share/mopsa/stubs/c/libc/string.c.
use mopsa_ocaml.Prelude.{ℕ, ◌≡◌, ◌≢◌, refl, ◌∙◌, sym, inl, inr, arith}
use mopsa_ocaml.Stub.Memory.{ℤ, pos, Ptr, Memory, byte, Forall, Exists}
use mopsa_ocaml.Stub.Contract.{Assigns}
use mopsa_ocaml.Stub.Overwrite.{
  overwrite, overwrite-Assigns, byte-overwrite, SameMemory, SameMemory-of_bytes,
}
use mopsa_ocaml.Stub.Frame.{byte_kept}
use mopsa_ocaml.Stub.Bytes.Defs.{memcpy, memmove, memccpy}

-- The memory in which the `n` bytes at `dest` are those that were at `src`.
abbrev pub copied : Memory → Ptr → Ptr → ℕ → Memory
copied m dest src n = overwrite m dest n (byte m src)

-- If memmove's requirements hold, a write of the old source bytes to the destination meets its
-- contract, and every outcome that the contract allows returns the destination and leaves that same
-- memory.
pub memmove_lem :
    (m : Memory) (dest src : Ptr) (len : ℕ)
    → (memmove dest src len).requires m
    → (memmove dest src len).ensures m dest (copied m dest src len)
      × ((r : Ptr) (m' : Memory)
          → (memmove dest src len).ensures m r m'
          → (r ≡ dest) × SameMemory m' (copied m dest src len))
unfolding memmove
memmove_lem m dest src len (from_valid, valid) = (
  (written, λ i _ h. byte-overwrite m dest len (byte m src) i valid h, refl),
  λ r m' (x, bytes, e). (
    e,
    SameMemory-of_bytes m m' (copied m dest src len) dest len valid x written
        λ i low h. bytes i low h ∙ sym (byte-overwrite m dest len (byte m src) i valid h),
  ),
)
  where
    written : Assigns dest len m (copied m dest src len)
    written = overwrite-Assigns m dest len (byte m src)

-- If memcpy's requirements hold then so do those of memmove, and every outcome that memcpy's
-- contract allows is one of memmove's, keeps the source bytes as they were, and makes each
-- destination byte equal to the source byte after the call.
memcpy-memmove :
    (m : Memory) (dest src : Ptr) (len : ℕ)
    → (memcpy dest src len).requires m
    → (memmove dest src len).requires m
      × ((r : Ptr) (m' : Memory)
          → (memcpy dest src len).ensures m r m'
          → (memmove dest src len).ensures m r m'
            × Forall 0 len (λ i. byte m' src i ≡ byte m src i)
            × Forall 0 len (λ i. byte m' dest i ≡ byte m' src i))
unfolding memcpy memmove
memcpy-memmove m dest src len (separate, from_valid, valid) = (
  (from_valid, valid),
  λ r m' (x, bytes, e).
      let kept = byte_kept m m' src len dest len separate from_valid valid x in
      ((x, bytes, e), kept, λ i low h. bytes i low h ∙ sym (kept i low h)),
)

-- If the byte sought occurs among the n source bytes and not among the n destination bytes before
-- the call, memccpy's contract allows no outcome at all.
memccpy_no_outcome :
    (m m' : Memory) (dest src r : Ptr) (c : ℤ) (n : ℕ)
    → Exists 0 n (λ i. pos (byte m src i) ≡ c)
    → Forall 0 n (λ i. pos (byte m dest i) ≢ c)
    → ¬ (memccpy dest src c n).ensures m r m'
unfolding memccpy
memccpy_no_outcome m m' dest src r c n (i, low, high, e) none (x, inl (all, same, e0)) =
    all i low high e
memccpy_no_outcome m m' dest src r c n some none
      (x, inr (found, (i, low, high, (e, e', back, before, kept)))) =
    none i low high (rw (← kept i (omega arith) high) e')
