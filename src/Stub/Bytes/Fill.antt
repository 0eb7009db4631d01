-- ===== src/Stub/Bytes/Fill.antt =====
-- memset of share/mopsa/stubs/c/libc/string.c against a write of the byte, and its limits.
use mopsa_ocaml.Prelude.{ℕ, ◌<◌, ◌≤◌, ◌≡◌, refl, ◌∙◌, sym, ap, arith}
use mopsa_ocaml.Stub.Memory.{ℤ, pos, negsuc, Ptr, null, invalid, at, Memory, shift, load, byte}
use mopsa_ocaml.Stub.Contract.{Assigns}
use mopsa_ocaml.Stub.Overwrite.{
  overwrite, overwrite-Assigns, byte-overwrite, SameMemory, SameMemory-of_bytes,
}
use mopsa_ocaml.Stub.Bytes.Defs.{memset}

pos-injective : (a b : ℕ) → pos a ≡ pos b → a ≡ b
pos-injective a b e = cc

-- The memory in which each of the `n` bytes at `p` is `k`.
abbrev pub filled : Memory → Ptr → ℕ → ℕ → Memory
filled m p k n = overwrite m p n λ _. k

-- If memset's requirements hold for a fill byte that is not negative as an int, a write of that
-- value to each byte meets its contract, and every outcome that the contract allows returns the
-- destination and leaves that same memory.
memset_lem :
    (m : Memory) (dest : Ptr) (k len : ℕ)
    → (memset dest (pos k) len).requires m
    → (memset dest (pos k) len).ensures m dest (filled m dest k len)
      × ((r : Ptr) (m' : Memory)
          → (memset dest (pos k) len).ensures m r m'
          → (r ≡ dest) × SameMemory m' (filled m dest k len))
unfolding memset
memset_lem m dest k len valid = (
  (written, λ i _ h. ap pos (byte-overwrite m dest len (λ _. k) i valid h), refl),
  λ r m' (x, bytes, e). (
    e,
    SameMemory-of_bytes m m' (filled m dest k len) dest len valid x written λ i low h.
        pos-injective _ _ (bytes i low h) ∙ sym (byte-overwrite m dest len (λ _. k) i valid h),
  ),
)
  where
    written : Assigns dest len m (filled m dest k len)
    written = overwrite-Assigns m dest len λ _. k

-- The values that no byte has.
abbrev pub NotByte : ℤ → Type 0
NotByte (pos k) = 256 ≤ k
NotByte (negsuc k) = Unit

-- Each byte of a block is below 256.
abbrev pub IsBytewise : Memory → Type 0
IsBytewise m = (b o : ℕ) → m.cell b o < 256

load-lt : (m : Memory) (p : Ptr) → IsBytewise m → load m p < 256
load-lt m null h = omega arith
load-lt m invalid h = omega arith
load-lt m (at b (negsuc o)) h = omega arith
load-lt m (at b (pos o)) h = h b o

byte-lt : (m : Memory) (p : Ptr) (i : ℕ) → IsBytewise m → byte m p i < 256
byte-lt m p i h = load-lt m (shift p i) h

-- If the int given to memset as the fill byte is negative or at least 256, and the length is not
-- zero, then no memory whose bytes are below 256 is an outcome of its contract.
memset_out_of_range :
    (m m' : Memory) (dest r : Ptr) (ch : ℤ) (len : ℕ)
    → NotByte ch
    → 0 < len
    → IsBytewise m'
    → ¬ (memset dest ch len).ensures m r m'
unfolding memset
memset_out_of_range m m' dest r (pos k) len high some bytewise (x, bytes, e) =
    let same = pos-injective _ _ (bytes 0 (omega arith) some) in
    absurd (omega (arith, byte-lt m' dest 0 bytewise))
memset_out_of_range m m' dest r (negsuc k) len high some bytewise (x, bytes, e) =
    cc (bytes 0 (omega arith) some)
