-- ===== src/Stub/Text/Terminated.antt =====
-- The copying stubs of share/mopsa/stubs/c/libc/string.c leave terminated strings, of the lengths
-- that strlen then gives.
use mopsa_ocaml.Prelude.{ℕ, ◌+◌, ◌-◌, ◌<◌, ◌≡◌, sym, ◌∙◌, ◌≢◌, arith}
use native.Mathlib.Decide.{dec_lt}
use mopsa_ocaml.Stub.Memory.{
  Ptr, null, invalid, at, pos, negsuc, Memory, byte, shift, room, Forall, ValidBytes,
}
use mopsa_ocaml.Stub.Contract.{Assigns}
use mopsa_ocaml.Stub.Text.Length.{strlen}
use mopsa_ocaml.Stub.Text.Measure.{EndsAt, strnlen_lem}
use mopsa_ocaml.Stub.Text.Copying.{strcpy, strcat, strncat, strncpy, stpcpy}

-- An offset below the size of a valid block is within it after the assignment too.
pub lt-room :
    (m m' : Memory) (p : Ptr) (n i : ℕ)
    → ValidBytes m p n
    → Assigns p n m m'
    → i < n
    → i < room m' p
lt-room m m' null n i v x h = absurd (v (omega arith))
lt-room m m' invalid n i v x h = absurd (v (omega arith))
lt-room m m' (at b (negsuc o)) n i v x h = absurd (v (omega arith))
lt-room m m' (at b (pos o)) n i v x h = omega (arith, (v (omega arith)).1, x.same_size b)

-- If strcpy's requirements hold, then after every outcome that its contract allows there is a
-- length that strlen's contract allows for the source before the call and for the returned string
-- after it.
strcpy-strlen :
    (m m' : Memory) (dest src r : Ptr)
    → (strcpy dest src).requires m
    → (strcpy dest src).ensures m r m'
    → (len : ℕ) × (strlen src).returns m len × (strlen r).returns m' len
unfolding strcpy strlen
strcpy-strlen m m' dest src r (req, then) (len, (high, ends, before), (x, same, e)) =
    let (separate, valid) = then len (high, ends, before) in
    (
      len,
      (high, ends, before),
      rw e (
        lt-room m m' dest (len + 1) len valid x (omega arith),
        same len (omega arith) (omega arith) ∙ ends,
        λ j l h. rw (same j l (omega arith)) (before j l h),
      ),
    )

-- Two runs of characters, one behind the other, hold no terminator.
pub joined_nonzero :
    (m m' : Memory) (dest src : Ptr) (d k : ℕ)
    → Forall 0 d (λ i. byte m' dest i ≡ byte m dest i)
    → Forall 0 k (λ i. byte m' dest (d + i) ≡ byte m src i)
    → Forall 0 d (λ i. byte m dest i ≢ 0)
    → Forall 0 k (λ i. byte m src i ≢ 0)
    → Forall 0 (d + k) (λ i. byte m' dest i ≢ 0)
joined_nonzero m m' dest src d k old new db before j l h e = elim (dec_lt j d) [
  | yes first ↦ db j l first (sym (old j l first) ∙ e)
  | no second ↦
      let place : d + (j - d) ≡ j = omega arith in
      before (j - d) (omega arith) (omega arith)
        (sym (new (j - d) (omega arith) (omega arith)) ∙ rw place e)
]

-- If strcat's requirements hold, then after every outcome that its contract allows strlen's
-- contract gives the returned string the sum of the lengths that it gave the destination and the
-- source before the call.
pub strcat-strlen :
    (m m' : Memory) (dest src r : Ptr)
    → (strcat dest src).requires m
    → (strcat dest src).ensures m r m'
    → (dest_len src_len : ℕ) × (strlen dest).returns m dest_len
      × (strlen src).returns m src_len
      × (strlen r).returns m' (dest_len + src_len)
unfolding strcat strlen
strcat-strlen m m' dest src r (req, then)
      (k, (high, ends, before), (d, (dh, de, db), (x, old, new, e))) =
    let (separate, valid) = (then k (high, ends, before)).1 d (dh, de, db) in
    (
      d,
      k,
      (dh, de, db),
      (high, ends, before),
      rw e (
        lt-room m m' dest (d + k + 1) (d + k) valid x (omega arith),
        new k (omega arith) (omega arith) ∙ ends,
        joined_nonzero m m' dest src d k old (λ j l h. new j l (omega arith)) db before,
      ),
    )

-- If strncat's requirements hold and its bound is not zero, then after every outcome that its
-- contract allows strlen's contract gives the returned string the destination's length before the
-- call plus a count at which the source ends or the bound is reached.
strncat-strlen :
    (m m' : Memory) (dest src r : Ptr) (len : ℕ)
    → 0 < len
    → (strncat dest src len).requires m
    → (strncat dest src len).ensures m r m'
    → (dest_len src_len : ℕ) × (strlen dest).returns m dest_len
      × EndsAt m src len src_len
      × (strlen r).returns m' (dest_len + src_len)
unfolding strncat strlen
strncat-strlen m m' dest src r len some (req, then)
      (k, ret, (d, (dh, de, db), (x, old, new, zero, e))) =
    let (separate, valid) = (then k ret).1 d (dh, de, db) in
    let ends = strnlen_lem m src len k some ret in
    (
      d,
      k,
      (dh, de, db),
      ends,
      rw e (
        lt-room m m' dest (d + k + 1) (d + k) valid x (omega arith),
        zero,
        joined_nonzero m m' dest src d k old new db ends.1,
      ),
    )

-- If strncpy's bound is not zero, then for every outcome that its contract allows there is a count
-- at which both the source before the call and the returned buffer after it end or reach the bound,
-- and every byte of the buffer from there to the bound is zero.
strncpy-EndsAt :
    (m m' : Memory) (dest src r : Ptr) (len : ℕ)
    → 0 < len
    → (strncpy dest src len).ensures m r m'
    → (k : ℕ) × EndsAt m src len k × EndsAt m' r len k × Forall k len (λ i. byte m' r i ≡ 0)
unfolding strncpy
strncpy-EndsAt m m' dest src r len some (k, ret, (x, copied, padded, e)) =
    let ends = strnlen_lem m src len k some ret in
    (
      k,
      ends,
      rw e (ends.0, (λ j l h. rw (copied j l h) (ends.1 j l h)), (λ h. padded k (omega arith) h)),
      rw e padded,
    )

-- If stpcpy's requirements hold, then every outcome that its contract allows leaves in the
-- destination a string of the source's length, and returns the pointer to its terminator.
pub stpcpy-end :
    (m m' : Memory) (dest src r : Ptr)
    → (stpcpy dest src).requires m
    → (stpcpy dest src).ensures m r m'
    → (len : ℕ) × (strlen src).returns m len × (strlen dest).returns m' len × (r ≡ shift dest len)
unfolding stpcpy strlen
stpcpy-end m m' dest src r (req, then) (len, (high, ends, before), (x, same, e)) =
    let (separate, valid) = then len (high, ends, before) in
    (
      len,
      (high, ends, before),
      (
        lt-room m m' dest (len + 1) len valid x (omega arith),
        same len (omega arith) (omega arith) ∙ ends,
        λ j l h. rw (same j l (omega arith)) (before j l h),
      ),
      e,
    )
