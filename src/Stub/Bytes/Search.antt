-- ===== src/Stub/Bytes/Search.antt =====
-- memchr, rawmemchr and memrchr of share/mopsa/stubs/c/libc/string.c: which results their contracts
-- leave.
use native.Mathlib.Decide.{dec_lt}
use mopsa_ocaml.Prelude.{ℕ, suc, ◌+◌, ◌≤◌, ◌≡◌, ◌≢◌, ◌⊎◌, inl, inr, arith}
use mopsa_ocaml.Stub.Memory.{Ptr, null, Memory, byte, shift, Forall, Exists}
use mopsa_ocaml.Stub.Bytes.Defs.{memchr, rawmemchr, memrchr, NoneBetween}

NoneBetween-nil :
    (m : Memory) (s : Ptr) (c i a b : ℕ) → byte m s i ≡ c → NoneBetween m s c i a b → b ≤ a
NoneBetween-nil m s c i a b e none = elim (dec_lt a b) [
  | yes h ↦ absurd (none a (omega arith) h e)
  | no h ↦ omega arith
]

-- memchr can give no result but the first byte, or null.
pub memchr_lem :
    (m : Memory) (s r : Ptr) (c n : ℕ)
    → (memchr s c n).returns m r
    → ((byte m s 0 ≡ c) × (r ≡ shift s 0)) ⊎ (Forall 0 n (λ i. byte m s i ≢ c) × (r ≡ null))
unfolding memchr
memchr_lem m s r c n (inr (none, e)) = inr (none, e)
memchr_lem m s r c n (inl (found, (i, low, high, (hit, before, e)))) =
    let first : i ≡ 0 = omega (arith, NoneBetween-nil m s c i 0 i hit before) in
    inl (rw first at hit, rw first at e)

-- If the byte sought occurs in the block but not at its start, memchr's contract allows no result
-- at all.
memchr_no_outcome :
    (m : Memory) (s r : Ptr) (c n : ℕ)
    → byte m s 0 ≢ c
    → Exists 0 n (λ i. byte m s i ≡ c)
    → ¬ (memchr s c n).returns m r
memchr_no_outcome m s r c n later (i, low, high, hit) h = elim (memchr_lem m s r c n h) [
  | inl (first, e) ↦ later first
  | inr (none, e) ↦ none i low high hit
]

-- If the byte sought is not the first of the block, rawmemchr's contract allows no result at all.
pub rawmemchr_no_outcome :
    (m : Memory) (s r : Ptr) (c : ℕ) → byte m s 0 ≢ c → ¬ (rawmemchr s c).returns m r
unfolding rawmemchr
rawmemchr_no_outcome m s r c later (i, low, high, (hit, before, e)) =
    let first : i ≡ 0 = omega (arith, NoneBetween-nil m s c i 0 i hit before) in
    later (rw first at hit)

-- If the byte sought occurs in a block of n + 1 bytes but not at its last byte, memrchr's contract
-- allows no result at all.
pub memrchr_no_outcome :
    (m : Memory) (s r : Ptr) (c n : ℕ)
    → byte m s n ≢ c
    → Exists 0 (suc n) (λ i. byte m s i ≡ c)
    → ¬ (memrchr s c (suc n)).returns m r
unfolding memrchr
memrchr_no_outcome m s r c n earlier (i, low, high, hit) (inr (none, e)) = none i low high hit
memrchr_no_outcome m s r c n earlier found (inl (same, (i, low, high, (hit, after, e)))) =
    let last : i ≡ n = omega (arith, NoneBetween-nil m s c i (i + 1) (suc n) hit after) in
    earlier (rw last at hit)
