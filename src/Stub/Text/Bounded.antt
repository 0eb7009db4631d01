-- ===== src/Stub/Text/Bounded.antt =====
-- strdup, strndup, strlcpy and strlcat of share/mopsa/stubs/c/libc/string.c and bsd/string.c: what
-- they allocate and where they cut.
use Prim.Native.Nat.{min}
use mopsa_ocaml.Prelude.{ℕ, ◌+◌, ◌-◌, ◌<◌, ◌≤◌, ◌≡◌, ap, ◌∙◌, ◌≢◌, inl, inr, false, true, arith}
use mopsa_ocaml.Stub.Memory.{Ptr, null, invalid, at, pos, negsuc, Memory, byte, ValidBlock}
use mopsa_ocaml.Stub.Text.Length.{strlen}
use mopsa_ocaml.Stub.Text.Measure.{EndsAt, strnlen_lem}
use mopsa_ocaml.Stub.Text.Terminated.{lt-room, joined_nonzero}
use mopsa_ocaml.Stub.Text.Copying.{strdup, strndup, strlcpy, strlcat}

-- A byte of a block, read through a pointer to its start.
byte_start : (m : Memory) (b i : ℕ) → byte m (at b (pos 0)) i ≡ m.cell b i
byte_start m b i = let e : 0 + i ≡ i = omega arith in ap (m.cell b) e

-- A valid block is valid up to any shorter length.
ValidBlock-of_le : (m : Memory) (p : Ptr) (k n : ℕ) → k ≤ n → ValidBlock m p n → ValidBlock m p k
ValidBlock-of_le m null k n h v = v
ValidBlock-of_le m invalid k n h v = v
ValidBlock-of_le m (at b (negsuc o)) k n h v = v
ValidBlock-of_le m (at b (pos o)) k n h v = (v.0, omega arith)

-- Every outcome of strdup's contract whose result is not null returns the start of a block that was
-- not alive before and is alive after the call, whose size is the string's length plus one, and
-- whose string has the length that the argument had.
strdup-strlen :
    (m m' : Memory) (s r : Ptr)
    → (strdup s).ensures m r m'
    → r ≢ null
    → (b len : ℕ) × (r ≡ at b (pos 0))
      × (m.alive b ≡ false)
      × (m'.alive b ≡ true)
      × (m'.size b ≡ len + 1)
      × (strlen s).returns m len
      × (strlen r).returns m' len
unfolding strdup strlen
strdup-strlen m m' s r (len, ret, inr (x, e)) some = absurd (some e)
strdup-strlen m m' s r (len, (high, ends, before), inl (b, x, e, size, same)) some = (
  b,
  len,
  e,
  x.fresh,
  x.now_alive,
  size,
  (high, ends, before),
  rw e (
    omega arith,
    byte_start m' b len ∙ same len (omega arith) (omega arith) ∙ ends,
    λ j l h. rw (byte_start m' b j ∙ same j l (omega arith)) (before j l h),
  ),
)

pub strndup-strlen :
    (m m' : Memory) (s r : Ptr) (n : ℕ)
    → 0 < n
    → (strndup s n).ensures m r m'
    → r ≢ null
    → (b len : ℕ) × (r ≡ at b (pos 0))
      × (m.alive b ≡ false)
      × (m'.size b ≡ len + 1)
      × EndsAt m s n len
      × (strlen r).returns m' len
unfolding strndup strlen
strndup-strlen m m' s r n pos_n (len, ret, inr (x, e)) some = absurd (some e)
strndup-strlen m m' s r n pos_n (len, ret, inl (b, x, size, same, zero, e)) some =
    let ends = strnlen_lem m s n len pos_n ret in
    (
      b,
      len,
      e,
      x.fresh,
      size,
      ends,
      rw e (
        omega arith,
        byte_start m' b len ∙ zero,
        λ j l h. rw (byte_start m' b j ∙ same j l h) (ends.1 j l h),
      ),
    )

-- If strlcpy's requirements hold, every outcome that its contract allows returns the length of the
-- source, and leaves in the destination a string of that length or, if that is less, of the size
-- less one.
strlcpy-strlen :
    (m m' : Memory) (dst src : Ptr) (size r : ℕ)
    → (strlcpy dst src size).requires m
    → (strlcpy dst src size).ensures m r m'
    → (strlen src).returns m r × (strlen dst).returns m' (min r (size - 1))
unfolding strlcpy strlen
strlcpy-strlen m m' dst src size r (valid, some, req)
      (len, (high, ends, before), (e, inl (fits, x, same))) =
    let short : min r (size - 1) ≡ len = omega arith in
    (
      rw e (high, ends, before),
      rw short (
        lt-room m m' dst (len + 1) len
            (λ _. ValidBlock-of_le m dst (len + 1) size (omega arith) (valid some)) x (omega arith),
        same len (omega arith) (omega arith) ∙ ends,
        λ j l h. rw (same j l (omega arith)) (before j l h),
      ),
    )
strlcpy-strlen m m' dst src size r (valid, some, req)
      (len, (high, ends, before), (e, inr (cut, x, same, zero))) =
    let short : min r (size - 1) ≡ size - 1 = omega arith in
    (
      rw e (high, ends, before),
      rw short (
        lt-room m m' dst size (size - 1) valid x (omega arith),
        zero,
        λ j l h. rw (same j l h) (before j l (omega arith)),
      ),
    )

-- If strlcat's requirements hold and the destination's string is shorter than the size, every
-- outcome that its contract allows leaves in the destination a string whose length is the result
-- or, if that is less, the size less one.
strlcat-strlen :
    (m m' : Memory) (dst src : Ptr) (size r dst_len : ℕ)
    → (strlcat dst src size).requires m
    → (strlcat dst src size).ensures m r m'
    → (strlen dst).returns m dst_len
    → dst_len < size
    → (strlen dst).returns m' (min r (size - 1))
unfolding strlcat strlen
strlcat-strlen m m' dst src size r q (valid, some, req, req')
      (k, (high, ends, before), (d, (dh, de, db), (e, inl (fits, x, old, new)))) ret short =
    let total : min r (size - 1) ≡ d + k = omega arith in
    rw total (
      lt-room m m' dst size (d + k) valid x (omega arith),
      new k (omega arith) (omega arith) ∙ ends,
      joined_nonzero m m' dst src d k old (λ j l h. new j l (omega arith)) db before,
    )
strlcat-strlen m m' dst src size r q (valid, some, req, req')
      (k, (high, ends, before), (d, (dh, de, db), (e, inr (inl (fits, cut, x, old, new, zero)))))
      ret short =
    let total : min r (size - 1) ≡ size - 1 = omega arith in
    let split : size - 1 ≡ d + (size - d - 1) = omega arith in
    rw total (
      lt-room m m' dst size (size - 1) valid x (omega arith),
      zero,
      rw split (
          joined_nonzero m m' dst src d (size - d - 1) old new db
            (λ j l h. before j l (omega arith))),
    )
strlcat-strlen m m' dst src size r q (valid, some, req, req')
      (k, (high, ends, before), (d, (dh, de, db), (e, inr (inr (long, same))))) (qh, qe, qb) short =
    absurd (db q (omega arith) (omega arith) qe)
