-- ===== src/Stub/Wide/Terminated.antt =====
-- The wide strings that the stubs of share/mopsa/stubs/c/libc/wchar.c leave.
use mopsa_ocaml.Prelude.{ℕ, pos, negsuc, ◌+◌, ◌-◌, ◌*◌, ◌<◌, ◌≡◌, sym, ap, ◌∙◌, ◌≢◌, inl, arith}
use native.Mathlib.Decide.{dec_lt}
use mopsa_ocaml.Stub.Memory.{Ptr, null, invalid, at, Memory, shift, Forall, Exists}
use mopsa_ocaml.Stub.Contract.{Assigns}
use mopsa_ocaml.Stub.Wide.Chars.{wide, room_wide, ValidWchars}
use mopsa_ocaml.Stub.Wide.Length.{wcslen}
use mopsa_ocaml.Stub.Wide.Copying.{wcscpy, wcscat}
use mopsa_ocaml.Stub.Wide.Block.{wmemcpy}

pub wcslen_unique :
    (m : Memory) (s : Ptr) (r q : ℕ) → (wcslen s).returns m r → (wcslen s).returns m q → r ≡ q
unfolding wcslen
wcslen_unique m s r q (h, e, b) (h', e', b') = elim (dec_lt q r) [
  | yes less ↦ absurd (b q (omega arith) less e')
  | no more ↦ elim (dec_lt r q) [
    | yes less ↦ absurd (b' r (omega arith) less e)
    | no same ↦ omega arith
  ]
]

-- An index below the count of valid characters is within the block after the assignment too.
lt-room_wide :
    (m m' : Memory) (p : Ptr) (n k i : ℕ)
    → ValidWchars m p n
    → Assigns p k m m'
    → i < n
    → i < room_wide m' p
lt-room_wide m m' null n k i v x h = absurd (v (omega arith))
lt-room_wide m m' invalid n k i v x h = absurd (v (omega arith))
lt-room_wide m m' (at b (negsuc o)) n k i v x h = absurd (v (omega arith))
lt-room_wide m m' (at b (pos o)) n k i v x h = omega (arith, (v (omega arith)).1, x.same_size b)

-- If wcscpy's requirements hold, then after every outcome that its contract allows there is a
-- length that wcslen's contract allows for the source before the call and for the returned string
-- after it.
wcscpy-wcslen :
    (m m' : Memory) (dest src r : Ptr)
    → (wcscpy dest src).requires m
    → (wcscpy dest src).ensures m r m'
    → (len : ℕ) × (wcslen src).returns m len × (wcslen r).returns m' len
unfolding wcscpy wcslen
wcscpy-wcslen m m' dest src r (req, then) (len, (high, ends, before), (x, same, e)) =
    let (separate, valid) = then len (high, ends, before) in
    (
      len,
      (high, ends, before),
      rw e (
        lt-room_wide m m' dest (len + 1) _ len valid x (omega arith),
        same len (omega arith) (omega arith) ∙ ends,
        λ j l h. rw (same j l (omega arith)) (before j l h),
      ),
    )

-- The characters before the terminator, after those of both strings are joined.
joined_nonzero :
    (m m' : Memory) (dest src : Ptr) (d k : ℕ)
    → Forall 0 d (λ i. wide m' dest i ≡ wide m dest i)
    → Forall 0 k (λ i. wide m' dest (d + i) ≡ wide m src i)
    → Forall 0 d (λ i. wide m dest i ≢ 0)
    → Forall 0 k (λ i. wide m src i ≢ 0)
    → Forall 0 (d + k) λ i. wide m' dest i ≢ 0
joined_nonzero m m' dest src d k old new dest_nonzero src_nonzero i low high = elim (dec_lt i d) [
  | yes h ↦ rw (old i low h) (dest_nonzero i low h)
  | no h ↦
      let place : d + (i - d) ≡ i = omega arith in
      let e : wide m' dest i ≡ wide m src (i - d) =
        ap (wide m' dest) (sym place) ∙ new (i - d) (omega arith) (omega arith) in
      rw e (src_nonzero (i - d) (omega arith) (omega arith))
]

-- If wcslen's contract gives the destination and the source their lengths, and the destination has
-- room for both and one character more, then after every outcome that wcscat's contract allows
-- wcslen's contract gives the returned string the sum of the lengths.
wcscat-wcslen :
    (m m' : Memory) (dest src r : Ptr) (dest_len src_len : ℕ)
    → (wcscat dest src).ensures m r m'
    → (wcslen dest).returns m dest_len
    → (wcslen src).returns m src_len
    → ValidWchars m dest (dest_len + src_len + 1)
    → (wcslen r).returns m' (dest_len + src_len)
unfolding wcscat wcslen
wcscat-wcslen m m' dest src r dest_len src_len (k, ks, (d, ds, (x, old, new, e))) dest_returned
      src_returned valid =
    let dest_same = wcslen_unique m dest dest_len d dest_returned ds in
    let src_same = wcslen_unique m src src_len k src_returned ks in
    rw (e, dest_same, src_same)
      (
        lt-room_wide m m' dest (d + k + 1) _ (d + k) (rw (sym dest_same, sym src_same) valid) x
            (omega arith),
        new k (omega arith) (omega arith) ∙ ks.1,
        joined_nonzero m m' dest src d k old (λ j l h. new j l (omega arith)) ds.2 ks.2,
      )

-- If a block has 2 n wide characters from an offset on, and n is not zero, then wmemcpy's
-- requirements hold for n characters from there to the place n bytes further, though the two have a
-- byte in common.
wmemcpy_overlap :
    (m : Memory) (b o n : ℕ)
    → 0 < n
    → ValidWchars m (at b (pos o)) (2 * n)
    → (wmemcpy (at b (pos (o + n))) (at b (pos o)) n).requires m
      × Exists 0
          (4 * n)
          (λ i. Exists 0 (4 * n) (λ j. shift (at b (pos (o + n))) i ≡ shift (at b (pos o)) j))
unfolding wmemcpy
wmemcpy_overlap m b o n some valid =
    let place : o + n + 0 ≡ o + n = omega arith in
    (
      (
        λ _ _ _. inl (omega arith),
        λ _. ((valid (omega arith)).0, omega (arith, (valid (omega arith)).1)),
        λ _. ((valid (omega arith)).0, omega (arith, (valid (omega arith)).1)),
      ),
      (0, omega arith, omega arith, (n, omega arith, omega arith, ap (λ z. at b (pos z)) place)),
    )
