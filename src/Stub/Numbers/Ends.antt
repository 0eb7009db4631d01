-- ===== src/Stub/Numbers/Ends.antt =====
-- The end that a conversion stores is a string again.
use mathlib.Core.Path.{◌≡◌}
use mopsa_ocaml.Prelude.{ℕ, ℤ, pos, negsuc, ◌+◌, ◌-◌, ◌≤◌, ◌<◌, ◌≢◌, inl, inr, some, arith}
use mopsa_ocaml.Stub.Memory.{Ptr, null, invalid, at, Memory, shift}
use mopsa_ocaml.Stub.Contract.{AssignsErrno}
use mopsa_ocaml.Stub.Text.Length.{strlen}
use mopsa_ocaml.Stub.Text.Measure.{strlen_unique}
use mopsa_ocaml.Stub.Numbers.{valid_end, EndWithin, IsBase, strtol}

inner :
    (m m' : Memory) (b o i j : ℕ)
    → AssignsErrno m m'
    → m.cell b (o + (i + j)) ≢ 0
    → m'.cell b (o + i + j) ≢ 0
inner m m' b o i j same nonzero =
    let index : o + i + j ≡ o + (i + j) = omega arith in
    rw (index, same.same_cell b (o + (i + j))) nonzero

-- The rest of a string, in a memory that agrees.
pub strlen-shift :
    (m m' : Memory) (b o i len : ℕ)
    → AssignsErrno m m'
    → (strlen (at b (pos o))).requires m
    → (strlen (at b (pos o))).returns m len
    → i ≤ len
    → (strlen (shift (at b (pos o)) i)).requires m'
      × (strlen (shift (at b (pos o)) i)).returns m' (len - i)
unfolding strlen
strlen-shift m m' b o i len same ((live, fits), _) (high, ends, before) low =
    let at_len : o + i + (len - i) ≡ o + len = omega arith in
    let last : m'.cell b (o + i + (len - i)) ≡ 0 = rw (at_len, same.same_cell b (o + len)) ends in
    let bound : len - i < m'.size b - (o + i) = omega (arith, same.same_size b) in
    (
      (
        (ground (arith, same.same_alive b), omega (arith, same.same_size b)),
        (len - i, omega arith, bound, last),
      ),
      (bound, last, λ j l h. inner m m' b o i j same (before (i + j) (omega arith) (omega arith))),
    )

rest :
    (nptr : Ptr) (m : Memory) (q : Ptr) (m' : Memory) (len : ℕ)
    → (strlen nptr).requires m
    → AssignsErrno m m'
    → EndWithin nptr m valid_end (some q)
    → (strlen nptr).returns m len
    → (strlen q).requires m' × ((k : ℕ) × (k ≤ len) × (strlen q).returns m' k)
unfolding strlen
rest null m q m' len req same end returned = absurd req.0
rest invalid m q m' len req same end returned = absurd req.0
rest (at b (negsuc o)) m q m' len req same end returned = absurd req.0
rest (at b (pos o)) m q m' len req same (inr e) returned = absurd (ground (arith, e.0))
rest (at b (pos o)) m q m' len req same (inl (_, (l, known, (i, _, high, e)))) returned =
    let same_len = strlen_unique m (at b (pos o)) len l returned known in
    let (valid, found) = strlen-shift m m' b o i len same req returned (omega arith) in
    let q_at : q ≡ shift (at b (pos o)) i = ground (arith, e) in
    rw q_at (valid, (len - i, omega arith, found))

-- If strtol's requirements hold with an end pointer that can be written through, and strlen's
-- contract gives the string a length, then the pointer that any outcome of strtol stores there
-- meets strtol's requirements again, with any base that is allowed, and strlen's contract gives it
-- a length that is no greater.
pub strtol-strlen :
    (nptr : Ptr) (b next : ℤ) (m : Memory) (r : ℤ) (q : Ptr) (m' : Memory) (len : ℕ)
    → (strtol nptr b).requires m valid_end
    → (strtol nptr b).ensures m valid_end r (some q) m'
    → (strlen nptr).returns m len
    → IsBase next
    → (strtol q next).requires m' valid_end × ((k : ℕ) × (k ≤ len) × (strlen q).returns m' k)
unfolding strtol
strtol-strlen nptr b next m r q m' len req outcome returned ok =
    let (valid, shorter) =
      rest nptr m q m' len (req.1.1 (ground arith)) outcome.0 outcome.1 returned in
    ((ok, (ground arith, (λ _. valid), λ h. absurd (ground arith))), shorter)
